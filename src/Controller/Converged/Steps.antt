-- ===== src/Controller/Converged/Steps.antt =====
-- Each object of a broker after its step of reconcileResources (internal/controller/mosquitto_controller.go).
use mosquitto_operator.Base.{
  ◌≢◌, length, length-append, ◌≡◌, refl, ap, ◌∙◌, false, ◌++◌, Bytes, codes, ◌=?◌, arith,
}
use mosquitto_operator.Base.Results.{Result, ok, err}
use mosquitto_operator.Api.{Mosquitto}
use mosquitto_operator.Builder.Objects.{Service, StatefulSet}
use mosquitto_operator.Builder.Pods.{PodOptions}
use mosquitto_operator.Builder.Services.{
  build_config_map, build_headless_service, build_client_service,
}
use mosquitto_operator.Builder.StatefulSets.{build_stateful_set}
use mosquitto_operator.Labels.{headless_service_name, client_service_name}
use mosquitto_operator.Controller.Cluster.{
  Key, Kind, config_map, service, stateful_set, Content, Cluster, Call, ◌=key◌,
}
use mosquitto_operator.Controller.Desired.{build_config_map-HasMaps, build_stateful_set-HasMaps}
use mosquitto_operator.Controller.Exec.{Outside, after, State}
use mosquitto_operator.Controller.Objects.{
  Reconciler, ensure, key_of, fetch, reconcile_config_map, reconcile_service,
  reconcile_stateful_set,
}
use mosquitto_operator.Controller.Settled.{HasMaps, IsSettled, ensured-IsSettled, err_not_ok}
use mosquitto_operator.Controller.Within.{Within, Within-lift, Within-bind}
use mosquitto_operator.Controller.Writes.{same_at, Apart, ensure-Apart}

pub same-IsSettled :
    (k : Kind) (m : Mosquitto) (desired : Content k) (a b : Cluster)
    → b.objects k (key_of k desired) ≡ a.objects k (key_of k desired)
    → IsSettled k m desired a
    → IsSettled k m desired b
same-IsSettled k m desired a b e h = record {
  current = h.current;
  is_stored = e ∙ h.is_stored;
  is_owned = h.is_owned;
  is_agreed = h.is_agreed;
}

-- A name is not that name with a suffix.
suffix_differs : (s : Bytes) → s ≢ s ++ codes "-headless"
suffix_differs s h = ground (arith, ap length h, length-append s (codes "-headless"))

longer : (s : Bytes) → (s =? (s ++ codes "-headless")) ≡ false
longer s = ground (arith, suffix_differs s)

module _ (o : Outside) (r : Reconciler) (m : Mosquitto) where
  open o use {encodings, crypto}
  open crypto use {Reader}

  abbrev pub opts : PodOptions
  opts = record { reloader_image = r.reloader_image }

  -- The StatefulSet is as the builder makes it.
  abbrev pub HasStatefulSet : Cluster → Type 0
  HasStatefulSet c =
      (d : StatefulSet) × (build_stateful_set encodings m opts ≡ ok d)
      × IsSettled stateful_set m d c

  abbrev pub ServiceSettled : Service → Cluster → Type 0
  ServiceSettled d c = IsSettled service m d c

  abbrev pub config_map_key : Key
  config_map_key = key_of config_map (build_config_map m)

  abbrev pub service_key : Service → Key
  service_key d = key_of service d

  -- The two Services have different names.
  pub services_apart :
      (service_key (build_client_service m) =key service_key (build_headless_service m)) ≡ false
  unfolding build_client_service build_headless_service headless_service_name client_service_name
  services_apart = ground (arith, longer m.meta.name)

  pub stateful_set-Within :
      (l : Kind) (key : Key)
      → ((j : Key) → Apart stateful_set j l key)
      → Within (same_at l key) (reconcile_stateful_set o r m)
  unfolding reconcile_stateful_set fetch
  stateful_set-Within l key h =
      Within-bind (same_at l key) _ _ (Within-lift (same_at l key) _) (λ d.
        ensure-Apart o stateful_set (Call.fetch stateful_set) m d l key (h (key_of stateful_set d)))

  pub service-Within :
      (d : Service) (l : Kind) (key : Key)
      → Apart service (service_key d) l key
      → Within (same_at l key) (reconcile_service o m d)
  unfolding reconcile_service fetch
  service-Within d l key h = ensure-Apart o service (Call.fetch service) m d l key h

  pub config_map-ends :
      (s : State Reader)
      → (reconcile_config_map o m s).0 ≡ ok tt
      → IsSettled config_map m (build_config_map m) (reconcile_config_map o m s).1.cluster
  unfolding reconcile_config_map fetch
  config_map-ends s h =
      (ensured-IsSettled o config_map m (build_config_map m) (build_config_map-HasMaps m)
        (Call.fetch config_map) s h).1

  pub service-ends :
      (d : Service) (s : State Reader)
      → HasMaps service d
      → (reconcile_service o m d s).0 ≡ ok tt
      → IsSettled service m d (reconcile_service o m d s).1.cluster
  unfolding reconcile_service fetch
  service-ends d s n h = (ensured-IsSettled o service m d n (Call.fetch service) s h).1

  stateful_set-after :
      (x : Result StatefulSet) (s : State Reader)
      → build_stateful_set encodings m opts ≡ x
      → let step = after (x, s) (λ d. ensure o stateful_set (fetch o stateful_set) m d) in
        step.0 ≡ ok tt → HasStatefulSet step.1.cluster
  unfolding fetch
  stateful_set-after (err e) s q h = absurd (err_not_ok h)
  stateful_set-after (ok d) s q h = (
    d,
    q,
    (ensured-IsSettled o stateful_set m d (build_stateful_set-HasMaps encodings m opts d q)
        (Call.fetch stateful_set) s h).1,
  )

  pub stateful_set-ends :
      (s : State Reader)
      → (reconcile_stateful_set o r m s).0 ≡ ok tt
      → HasStatefulSet (reconcile_stateful_set o r m s).1.cluster
  unfolding reconcile_stateful_set
  stateful_set-ends s h = stateful_set-after (build_stateful_set encodings m opts) s refl h
