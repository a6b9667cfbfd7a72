-- ===== src/Controller/Converged.antt =====
-- The objects of a broker after reconcileResources (internal/controller/mosquitto_controller.go).
mod Steps
use mosquitto_operator.Base.{ℕ, ◌≡◌, refl}
use mosquitto_operator.Base.Results.{Result, ok, err}
use mosquitto_operator.Api.{Mosquitto}
use mosquitto_operator.Builder.Objects.{StatefulSet}
use mosquitto_operator.Builder.StatefulSets.{build_stateful_set}
use mosquitto_operator.Builder.Services.{
  build_config_map, build_headless_service, build_client_service,
}
use mosquitto_operator.Controller.Cluster.{Key, Kind, config_map, service, stateful_set, Cluster}
use mosquitto_operator.Controller.Desired.{
  build_config_map-HasMaps, build_stateful_set-HasMaps, build_headless_service-HasMaps,
  build_client_service-HasMaps,
}
use mosquitto_operator.Controller.Exec.{⊤, Outside, Exec, pure, ◌>>=◌, after, State, Pass}
use mosquitto_operator.Controller.Held.{HoldsFiles, reconciled-HoldsFiles}
use mosquitto_operator.Controller.Objects.{
  Reconciler, reconcile_config_map, reconcile_service, reconcile_stateful_set,
  reconcile_auth_secret,
}
use mosquitto_operator.Controller.Ordered.{after_secret, after_secret-secrets, same-HoldsFiles}
use mosquitto_operator.Controller.Passes.{reconcile_resources}
use mosquitto_operator.Controller.Settled.{IsSettled, err_not_ok}
use mosquitto_operator.Controller.Users.{UserPass, render_users, write_user_statuses}
use mosquitto_operator.Controller.Within.{Within, Within-pure, Within-bind}
use mosquitto_operator.Controller.Writes.{same_at, Apart}
use mosquitto_operator.Controller.Matching.{IsLive, IsSettled-IsLive}
use mosquitto_operator.Controller.Converged.Steps.{
  opts, same-IsSettled, services_apart, stateful_set-Within, service-Within, config_map-ends,
  service-ends, stateful_set-ends, HasStatefulSet, ServiceSettled, service_key, config_map_key,
}

-- A step that succeeded had a first step that did, whose outcome the rest keeps, and a rest that did.
both :
    {R B : Type 0} (F G : Cluster → Type 0) (x : Result ⊤) (s : State R) (rest : Exec (State R) B)
    (b : B)
    → (x ≡ ok tt → F s.cluster)
    → (F s.cluster → F (rest s).1.cluster)
    → ((rest s).0 ≡ ok b → G (rest s).1.cluster)
    → (after (x, s) (λ _. rest)).0 ≡ ok b
    → F (after (x, s) (λ _. rest)).1.cluster × G (after (x, s) (λ _. rest)).1.cluster
both F G (err e) s rest b first keep last h = absurd (err_not_ok h)
both F G (ok tt) s rest b first keep last h = (keep (first refl), last h)

ok_same : (a n : ℕ) → ◌≡◌ {A = Result ℕ} (ok a) (ok n) → n ≡ a
ok_same a n h = cc

module _ (o : Outside) (r : Reconciler) (m : Mosquitto) where
  open o use {encodings, crypto}
  open crypto use {Reader}

  -- The steps of reconcileResources after the statuses, from the last one to the first.
  abbrev last_step : ℕ → Pass o ℕ
  last_step n = reconcile_stateful_set o r m >>= λ _. pure n

  abbrev from_client : ℕ → Pass o ℕ
  from_client n = reconcile_service o m (build_client_service m) >>= λ _. last_step n

  abbrev from_headless : ℕ → Pass o ℕ
  from_headless n = reconcile_service o m (build_headless_service m) >>= λ _. from_client n

  abbrev from_config_map : ℕ → Pass o ℕ
  from_config_map n = reconcile_config_map o m >>= λ _. from_headless n

  -- What they keep: the objects that have other kinds or names.
  last_step-Within :
      (n : ℕ) (l : Kind) (key : Key)
      → ((j : Key) → Apart stateful_set j l key)
      → Within (same_at l key) (last_step n)
  last_step-Within n l key h =
      Within-bind (same_at l key) _ _ (stateful_set-Within o r m l key h)
        (λ _. Within-pure (same_at l key) n)

  from_client-Within :
      (n : ℕ) (l : Kind) (key : Key)
      → ((j : Key) → Apart stateful_set j l key)
      → Apart service (service_key o r m (build_client_service m)) l key
      → Within (same_at l key) (from_client n)
  from_client-Within n l key h c =
      Within-bind (same_at l key) _ _ (service-Within o r m (build_client_service m) l key c)
        (λ _. last_step-Within n l key h)

  from_headless-Within : (n : ℕ) (key : Key) → Within (same_at config_map key) (from_headless n)
  from_headless-Within n key =
      Within-bind (same_at config_map key) _ _
        (service-Within o r m (build_headless_service m) config_map key tt)
        (λ _. from_client-Within n config_map key (λ _. tt) tt)

  -- What they leave settled.
  abbrev AfterLast : ℕ → ℕ → Cluster → Type 0
  AfterLast a n c = HasStatefulSet o r m c × (n ≡ a)

  abbrev AfterClient : ℕ → ℕ → Cluster → Type 0
  AfterClient a n c = ServiceSettled o r m (build_client_service m) c × AfterLast a n c

  abbrev AfterHeadless : ℕ → ℕ → Cluster → Type 0
  AfterHeadless a n c = ServiceSettled o r m (build_headless_service m) c × AfterClient a n c

  abbrev AfterConfigMap : ℕ → ℕ → Cluster → Type 0
  AfterConfigMap a n c = IsSettled config_map m (build_config_map m) c × AfterHeadless a n c

  last_step-ends :
      (a n : ℕ) (s : State Reader)
      → (last_step a s).0 ≡ ok n
      → AfterLast a n (last_step a s).1.cluster
  last_step-ends a n s =
      both (HasStatefulSet o r m) (λ _. n ≡ a) (reconcile_stateful_set o r m s).0
        (reconcile_stateful_set o r m s).1 (pure a) n (stateful_set-ends o r m s) (λ h. h)
        (ok_same a n)

  from_client-ends :
      (a n : ℕ) (s : State Reader)
      → (from_client a s).0 ≡ ok n
      → AfterClient a n (from_client a s).1.cluster
  from_client-ends a n s =
      let step = reconcile_service o m (build_client_service m) s in
      both (ServiceSettled o r m (build_client_service m)) (AfterLast a n) step.0 step.1
        (last_step a) n
        (service-ends o r m (build_client_service m) s (build_client_service-HasMaps m))
        (same-IsSettled service m (build_client_service m) step.1.cluster _ (
          (last_step-Within a service (service_key o r m (build_client_service m)) (λ _. tt)).at
            step.1))
        (last_step-ends a n step.1)

  from_headless-ends :
      (a n : ℕ) (s : State Reader)
      → (from_headless a s).0 ≡ ok n
      → AfterHeadless a n (from_headless a s).1.cluster
  from_headless-ends a n s =
      let step = reconcile_service o m (build_headless_service m) s in
      both (ServiceSettled o r m (build_headless_service m)) (AfterClient a n) step.0 step.1
        (from_client a) n
        (service-ends o r m (build_headless_service m) s (build_headless_service-HasMaps m))
        (same-IsSettled service m (build_headless_service m) step.1.cluster _ (
          (from_client-Within a service (service_key o r m (build_headless_service m)) (λ _. tt)
              (services_apart o r m)).at
            step.1))
        (from_client-ends a n step.1)

  from_config_map-ends :
      (a n : ℕ) (s : State Reader)
      → (from_config_map a s).0 ≡ ok n
      → AfterConfigMap a n (from_config_map a s).1.cluster
  from_config_map-ends a n s =
      let step = reconcile_config_map o m s in
      both (IsSettled config_map m (build_config_map m)) (AfterHeadless a n) step.0 step.1
        (from_headless a) n (config_map-ends o r m s)
        (same-IsSettled config_map m (build_config_map m) step.1.cluster _
          ((from_headless-Within a (config_map_key o r m)).at step.1))
        (from_headless-ends a n step.1)

  after_secret-ends :
      (pass : UserPass) (n : ℕ) (s : State Reader)
      → (after_secret o r m pass s).0 ≡ ok n
      → AfterConfigMap pass.accepted n (after_secret o r m pass s).1.cluster
  after_secret-ends pass n s h =
      let step = write_user_statuses o pass s in
      (both (λ _. Unit) (AfterConfigMap pass.accepted n) step.0 step.1
        (from_config_map pass.accepted) n (λ _. tt) (λ h. h)
        (from_config_map-ends pass.accepted n step.1) h).1

  -- The StatefulSet has what the builder makes.
  abbrev pub HasLiveStatefulSet : Cluster → Type 0
  HasLiveStatefulSet c =
      (d : StatefulSet) × (build_stateful_set o.encodings m (opts o r m) ≡ ok d)
      × IsLive stateful_set m d c

  -- The Secret holds the rendered files, and the other objects have what the builders make.
  pub record IsConverged (pass : UserPass) (n : ℕ) (c : Cluster) : Type 0 where
    pub has_files : HoldsFiles m pass.files c
    pub has_config_map : IsLive config_map m (build_config_map m) c
    pub has_headless_service : IsLive service m (build_headless_service m) c
    pub has_client_service : IsLive service m (build_client_service m) c
    pub has_stateful_set : HasLiveStatefulSet c
    pub counts_accepted : n ≡ pass.accepted

  live_stateful_set : (c : Cluster) → HasStatefulSet o r m c → HasLiveStatefulSet c
  live_stateful_set c (d, q, h) = (
    d,
    q,
    IsSettled-IsLive stateful_set m d c (build_stateful_set-HasMaps o.encodings m (opts o r m) d q)
        h,
  )

  from_secret-ends :
      (pass : UserPass) (n : ℕ) (s : State Reader)
      → ((reconcile_auth_secret o m pass.files >>= λ _. after_secret o r m pass) s).0 ≡ ok n
      → IsConverged pass n
          ((reconcile_auth_secret o m pass.files >>= λ _. after_secret o r m pass) s).1.cluster
  from_secret-ends pass n s h =
      let step = reconcile_auth_secret o m pass.files s in
      let done =
        both (HoldsFiles m pass.files) (AfterConfigMap pass.accepted n) step.0 step.1
          (after_secret o r m pass) n (reconciled-HoldsFiles o m pass.files s)
          (same-HoldsFiles o m pass.files step.1.cluster _
            ((after_secret-secrets o r m pass).at step.1))
          (after_secret-ends pass n step.1) h in
      record {
        has_files = done.0;
        has_config_map = IsSettled-IsLive config_map m _ _ (build_config_map-HasMaps m) done.1.0;
        has_headless_service =
            IsSettled-IsLive service m _ _ (build_headless_service-HasMaps m) done.1.1.0;
        has_client_service =
            IsSettled-IsLive service m _ _ (build_client_service-HasMaps m) done.1.1.1.0;
        has_stateful_set = live_stateful_set _ done.1.1.1.1.0;
        counts_accepted = done.1.1.1.1.1;
      }

  rendered-ends :
      (x : Result UserPass) (n : ℕ) (s : State Reader)
      → let done =
          after
            (x, s)
            (λ pass. reconcile_auth_secret o m pass.files >>= λ _. after_secret o r m pass) in
        done.0 ≡ ok n → (pass : UserPass) × (x ≡ ok pass) × IsConverged pass n done.1.cluster
  rendered-ends (err e) n s h = absurd (err_not_ok h)
  rendered-ends (ok pass) n s h = (pass, refl, from_secret-ends pass n s h)

  pub resources_converge :
      (s : State Reader) (n : ℕ)
      → (reconcile_resources o r m s).0 ≡ ok n
      → (pass : UserPass) × ((render_users o r m s).0 ≡ ok pass)
        × IsConverged pass n (reconcile_resources o r m s).1.cluster
  unfolding reconcile_resources
  resources_converge s n = rendered-ends (render_users o r m s).0 n (render_users o r m s).1
