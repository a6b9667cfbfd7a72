-- ===== src/Controller/Foreign/Steps.antt =====
-- The steps of a pass, each within what the pass may change.
use mosquitto_operator.Base.{
  ◌≡◌, refl, inl, inr, Option, none, some, Bytes, Bool-cases, Option-cases, =?_refl,
}
use mosquitto_operator.Base.Dict.{Dict}
use mosquitto_operator.Api.{Mosquitto, MosquittoUser}
use mosquitto_operator.Auth.Defs.{Verdict}
use mosquitto_operator.Builder.Objects.{Service}
use mosquitto_operator.Builder.Services.{build_config_map, build_auth_secret}
use mosquitto_operator.Controller.Cluster.{
  Key, Kind, config_map, service, stateful_set, secret, Content, Stored, Call,
}
use mosquitto_operator.Controller.Conditions.{status_unchanged, user_status_unchanged}
use mosquitto_operator.Controller.Exec.{Outside, State, ask}
use mosquitto_operator.Controller.Objects.{
  Reconciler, is_controlled_by, key_of, ensure_owned, owned, set_controller, create, update, renew,
  write_over, ensure, agrees, fetch, read, updated, reconcile_config_map, reconcile_service,
  reconcile_stateful_set, reconcile_auth_secret,
}
use mosquitto_operator.Controller.Statuses.{
  key_of_broker, fetch_broker, update_broker, persist_over, persist_status, update_status,
  fetch_ready, status_of,
}
use mosquitto_operator.Controller.Users.{
  update_user, persist_user_status, verdict_status, key_of_user,
}
use mosquitto_operator.Controller.Within.{
  Within, Within-pure, Within-raise, Within-lift, Within-bind, Within-reading, Within-if,
  Within-ask, Within-ask-bind, tell-rel,
}
use mosquitto_operator.Controller.Foreign.{
  IsControlled, Kept-refl, SameSpec-refl, OnlyOwn, only_own,
}
use mosquitto_operator.Controller.Foreign.Puts.{put-OnlyOwn, asked_of-put_status, written-brokers}

module _ (o : Outside) where
  open o use {owner_fault, crypto}
  open crypto use {Reader}

  renew-OnlyOwn :
      (k : Kind) (m : Mosquitto) (desired current : Stored k) (s : State Reader)
      → s.cluster.objects k (key_of k desired.content) ≡ some current
      → IsControlled m.meta.uid current
      → OnlyOwn m.meta.uid s.cluster (renew o k desired current s).1.cluster
  unfolding renew update
  renew-OnlyOwn k m desired current s e h =
      elim (Bool-cases (agrees k current.content desired.content)) [
        | inl q ↦ rw q ((only_own m.meta.uid).stay s.cluster)
        | inr q ↦ rw q (
            tell-rel o (only_own m.meta.uid) _ _ s (
              put-OnlyOwn m.meta.uid k (key_of k desired.content)
                (record current { content = updated k current.content desired.content }) s.cluster
                (rw e (inl (h, h)))))
      ]

  write_over-OnlyOwn :
      (k : Kind) (m : Mosquitto) (desired : Stored k) (x : Option (Stored k)) (s : State Reader)
      → desired.controller ≡ some m.meta.uid
      → s.cluster.objects k (key_of k desired.content) ≡ x
      → OnlyOwn m.meta.uid s.cluster (write_over o k m desired x s).1.cluster
  unfolding write_over create ensure_owned
  write_over-OnlyOwn k m desired none s d e = tell-rel o (only_own m.meta.uid) _ _ s (
      put-OnlyOwn m.meta.uid k (key_of k desired.content) desired s.cluster
        (rw e (rw d (=?_refl m.meta.uid))))
  write_over-OnlyOwn k m desired (some current) s d e =
      elim (Bool-cases (is_controlled_by current m)) [
        | inl q ↦ rw q (renew-OnlyOwn k m desired current s e q)
        | inr q ↦ rw q ((only_own m.meta.uid).stay s.cluster)
      ]

  ensure-OnlyOwn :
      (k : Kind) (call : Key → Call) (m : Mosquitto) (desired : Content k)
      → Within
          (only_own m.meta.uid)
          (ensure o k (λ key. ask o (call key) (λ c. c.objects k key)) m desired)
  unfolding ensure set_controller owned
  ensure-OnlyOwn k call m desired = elim (Option-cases (owner_fault k (key_of k desired))) [
    | inl q ↦ rw q (
        Within-ask-bind o (only_own m.meta.uid) (call (key_of k desired))
          (λ c. c.objects k (key_of k desired))
          (write_over o k m (record { controller = some m.meta.uid; content = desired }))
          (λ s.
            write_over-OnlyOwn k m (record { controller = some m.meta.uid; content = desired })
              (s.cluster.objects k (key_of k desired)) s refl refl))
    | inr (x, q) ↦ rw q (Within-raise (only_own m.meta.uid) _)
  ]

  pub reconcile_config_map-OnlyOwn :
      (m : Mosquitto) → Within (only_own m.meta.uid) (reconcile_config_map o m)
  unfolding reconcile_config_map fetch
  reconcile_config_map-OnlyOwn m =
      ensure-OnlyOwn config_map (Call.fetch config_map) m (build_config_map m)

  pub reconcile_service-OnlyOwn :
      (m : Mosquitto) (desired : Service)
      → Within (only_own m.meta.uid) (reconcile_service o m desired)
  unfolding reconcile_service fetch
  reconcile_service-OnlyOwn m desired = ensure-OnlyOwn service (Call.fetch service) m desired

  pub reconcile_auth_secret-OnlyOwn :
      (m : Mosquitto) (files : Dict Bytes)
      → Within (only_own m.meta.uid) (reconcile_auth_secret o m files)
  unfolding reconcile_auth_secret read
  reconcile_auth_secret-OnlyOwn m files =
      ensure-OnlyOwn secret (Call.read secret) m (build_auth_secret m files)

  pub reconcile_stateful_set-OnlyOwn :
      (r : Reconciler) (m : Mosquitto) → Within (only_own m.meta.uid) (reconcile_stateful_set o r m)
  unfolding reconcile_stateful_set fetch
  reconcile_stateful_set-OnlyOwn r m =
      Within-bind (only_own m.meta.uid) _ _ (Within-lift (only_own m.meta.uid) _)
        (λ desired. ensure-OnlyOwn stateful_set (Call.fetch stateful_set) m desired)

  module _ (uid : Bytes) where
    pub persist_user_status-OnlyOwn :
        (u : MosquittoUser) (username : Bytes) (verdict : Verdict)
        → Within (only_own uid) (persist_user_status o u username verdict)
    unfolding persist_user_status update_user
    persist_user_status-OnlyOwn u username verdict =
        Within-if (only_own uid)
          (user_status_unchanged (verdict_status o u username verdict) u.status) _ _
          (Within-pure (only_own uid) tt)
          (Within-reading (only_own uid) _ _ (record {
            at = λ s. tell-rel o (only_own uid) _ _ s (record {
              objects = λ k key. Kept-refl uid k (s.cluster.objects k key);
              users =
                  asked_of-put_status (key_of_user u) (verdict_status o u username verdict)
                    s.cluster.users;
              brokers = λ n. (n, λ key. SameSpec-refl (s.cluster.brokers key));
            });
          }))

    persist_over-OnlyOwn :
        (m : Mosquitto) (x : Option Mosquitto) (s : State Reader)
        → s.cluster.brokers (key_of_broker m) ≡ x
        → OnlyOwn uid s.cluster (persist_over o m x s).1.cluster
    unfolding persist_over update_broker
    persist_over-OnlyOwn m none s e = (only_own uid).stay s.cluster
    persist_over-OnlyOwn m (some stored) s e =
        elim (Bool-cases (status_unchanged stored.status m.status)) [
          | inl q ↦ rw q ((only_own uid).stay s.cluster)
          | inr q ↦ rw q (
              tell-rel o (only_own uid) _ _ s (record {
                objects = λ k key. Kept-refl uid k (s.cluster.objects k key);
                users = refl;
                brokers = λ n. written-brokers m stored s.cluster e n;
              }))
        ]

    pub persist_status-OnlyOwn : (m : Mosquitto) → Within (only_own uid) (persist_status o m)
    unfolding persist_status fetch_broker
    persist_status-OnlyOwn m =
        Within-ask-bind o (only_own uid) _ _ (persist_over o m)
          (λ s. persist_over-OnlyOwn m (s.cluster.brokers (key_of_broker m)) s refl)

    pub update_status-OnlyOwn : (m : Mosquitto) → Within (only_own uid) (update_status o m)
    unfolding update_status fetch_ready
    update_status-OnlyOwn m =
        Within-bind (only_own uid) _ _ (Within-ask o (only_own uid) _ _)
          (λ ready. persist_status-OnlyOwn (status_of o m ready))
