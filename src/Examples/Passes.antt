-- ===== src/Examples/Passes.antt =====
-- internal/controller at concrete inputs: the objects and the statuses.
use mosquitto_operator.Base.{ℕ, ◌≡◌, refl, true, some, [], codes, ◌=?◌, bytes_discrete, ◌⊎◌, ◌↔◌}
use mosquitto_operator.Base.Dict.{keys, insert, insert_all, NodupKeys-distinct, distinct_keys}
use mosquitto_operator.Base.Results.{Result, ok}
use mosquitto_operator.Api.{Mosquitto, Condition}
use mosquitto_operator.Builder.Objects.{Service}
use mosquitto_operator.Builder.Services.{build_client_service}
use mosquitto_operator.Controller.Cluster.{service, Call}
use mosquitto_operator.Controller.Conditions.{condition_ready, find, status_unchanged}
use mosquitto_operator.Controller.Exec.{State, ask, tell}
use mosquitto_operator.Controller.Foreign.{IsConfined}
use mosquitto_operator.Controller.Foreign.Passes.{reconcile-IsConfined}
use mosquitto_operator.Controller.Objects.{
  ensure, key_of, set_controller, owned, write_over, create,
}
use mosquitto_operator.Controller.Passes.{reconcile, reconcile_resources}
use mosquitto_operator.Controller.Recorded.{ready_in, update_status_records}
use mosquitto_operator.Controller.Readiness.{AreAllReady, ready_pods, phase_is_ready_iff}
use mosquitto_operator.Controller.Settled.{ensure_settles}
use mosquitto_operator.Controller.Statuses.{key_of_broker, status_of, update_status, phase_ready}
use mosquitto_operator.Controller.Users.{UserPass, render_users}
use mosquitto_operator.Controller.Within.{traced}
use mosquitto_operator.Labels.{base_labels, selector_labels, merge_labels}
use mosquitto_operator.Controller.Ordered.{users_wait_for_secret}
use mosquitto_operator.Controller.Held.{HoldsFiles}
use mosquitto_operator.Controller.Steady.{finished, finished_status_is_unchanged}
use mosquitto_operator.Examples.Clusters.{
  quiet_outside, operator_of, home_key, start, broker-stored, start-AreNamed,
}
use mosquitto_operator.Examples.Samples.{sample_broker}

-- The broker's ConfigMap is somebody else's.
reconcile-IsConfined_example :
    IsConfined
      (codes "u-1")
      start.cluster
      (reconcile quiet_outside (operator_of (codes "home")) home_key start).1.cluster
reconcile-IsConfined_example =
    reconcile-IsConfined quiet_outside (operator_of (codes "home")) home_key sample_broker start
      start-AreNamed broker-stored

abbrev client : Service
client = build_client_service sample_broker

abbrev ensured : State ℕ → Result (Unit {0}) × State ℕ
ensured s =
    ensure quiet_outside service
      (λ key. ask quiet_outside (Call.fetch service key) (λ c. c.objects service key)) sample_broker
      client s

abbrev later : State ℕ
later = record { cluster = (ensured start).1.cluster; trace = []; random = 7 }

ensured_done : (ensured start).0 ≡ ok tt
unfolding ensure set_controller owned ask write_over create tell
ensured_done = refl

client_selector : distinct_keys client.selector ≡ true
unfolding build_client_service selector_labels keys bytes_discrete
client_selector = refl

client_labels : distinct_keys client.labels ≡ true
unfolding build_client_service base_labels merge_labels insert insert_all keys bytes_discrete
client_labels = refl

ensure_settles_example :
    (ensured later).1 ≡ traced quiet_outside (Call.fetch service (key_of service client)) later
ensure_settles_example =
    ensure_settles quiet_outside service (λ key. Call.fetch service key) sample_broker client start
      later
      (
        NodupKeys-distinct client.selector client_selector,
        NodupKeys-distinct client.labels client_labels,
      )
      ensured_done refl

update_status_records_example :
    (update_status quiet_outside sample_broker start).0 ≡ ok tt
    × ((update_status quiet_outside sample_broker start).1.cluster.brokers
          (key_of_broker sample_broker)
        ≡ some (record sample_broker {
          status =
              (status_of quiet_outside sample_broker (ready_in sample_broker start.cluster)).status;
        }))
update_status_records_example =
    update_status_records quiet_outside sample_broker sample_broker start (λ calls call. refl)
      broker-stored refl

phase_is_ready_iff_example :
    (new : Mosquitto) × ((update_status quiet_outside sample_broker start).1.cluster.brokers
        (key_of_broker sample_broker)
      ≡ some new)
    × ((new.status.phase ≡ phase_ready) ↔ AreAllReady sample_broker start.cluster)
    × (new.status.ready_replicas ≡ ready_pods sample_broker start.cluster)
    × ((c : Condition) × (find condition_ready new.status.conditions ≡ some c)
        × (c.status ≡ (new.status.phase =? phase_ready))
        × (c.observed_generation ≡ 1))
phase_is_ready_iff_example =
    phase_is_ready_iff quiet_outside sample_broker sample_broker start (λ calls call. refl)
      broker-stored refl

users_wait_for_secret_example :
    ((reconcile_resources quiet_outside
        (operator_of (codes "home"))
        sample_broker
        start).1.cluster.users
      ≡ start.cluster.users)
    ⊎ ((pass : UserPass) × ((render_users quiet_outside
            (operator_of (codes "home"))
            sample_broker
            start).0
          ≡ ok pass)
        × HoldsFiles sample_broker pass.files
            (reconcile_resources quiet_outside
              (operator_of (codes "home"))
              sample_broker
              start).1.cluster)
users_wait_for_secret_example =
    users_wait_for_secret quiet_outside (operator_of (codes "home")) sample_broker start

finished_status_is_unchanged_example :
    status_unchanged
      (finished quiet_outside sample_broker 2 (some 1)).status
      (finished quiet_outside (finished quiet_outside sample_broker 2 (some 1)) 2 (some 1)).status
    ≡ true
finished_status_is_unchanged_example =
    finished_status_is_unchanged quiet_outside sample_broker 2 (some 1)
