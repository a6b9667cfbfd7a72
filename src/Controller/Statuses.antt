-- ===== src/Controller/Statuses.antt =====
-- internal/controller/mosquitto_controller.go: the status of a Mosquitto.
use mosquitto_operator.Base.{
  ℕ, Bool, true, false, ◌&&◌, Option, none, some, ◌∷◌, ◌++◌, Bytes, codes, ltb, leb, ◌==◌,
  if◌then◌else◌,
}
use mosquitto_operator.Base.Decimal.{itoa}
use mosquitto_operator.Base.Results.{Error, external}
use mosquitto_operator.Api.{Mosquitto, Condition}
use mosquitto_operator.Labels.{stateful_set_name}
use mosquitto_operator.Controller.Cluster.{Key, stateful_set, Call, write}
use mosquitto_operator.Controller.Conditions.{condition_ready, condition_users, status_unchanged}
use mosquitto_operator.Controller.Exec.{⊤, Outside, pure, raise, ◌>>=◌, Pass, ask, tell}

abbrev pub phase_pending : Bytes
phase_pending = codes "Pending"

abbrev pub phase_progressing : Bytes
phase_progressing = codes "Progressing"

abbrev pub phase_ready : Bytes
phase_ready = codes "Ready"

abbrev pub phase_failed : Bytes
phase_failed = codes "Failed"

abbrev pub reason_users_accepted : Bytes
reason_users_accepted = codes "UsersAccepted"

abbrev pub reason_no_users : Bytes
reason_no_users = codes "NoUsers"

abbrev pub key_of_broker : Mosquitto → Key
key_of_broker m = record { namespace = m.meta.namespace; name = m.meta.name }

-- The error of a read of an object that does not exist.
abbrev pub not_found : Error
not_found = external (codes "not found")

-- `fmt.Sprintf("%d/%d broker pods are ready", …)`
abbrev pub ready_text : ℕ → ℕ → Bytes
ready_text ready replicas = itoa ready ++ (b'/' ∷ (itoa replicas ++ codes " broker pods are ready"))

-- The Users condition of a broker that accepts so many.
unfoldable pub users_condition : ℕ → ℕ → Condition
users_condition generation accepted =
    if accepted == 0
    then record {
      kind = condition_users;
      status = false;
      observed_generation = generation;
      reason = reason_no_users;
      message =
          codes
            "the broker requires a login and accepts nobody: no MosquittoUser bound to it is accepted";
    }
    else record {
      kind = condition_users;
      status = true;
      observed_generation = generation;
      reason = reason_users_accepted;
      message = itoa accepted ++ codes " users accepted";
    }

unfoldable pub ready_of : {A : Type 0} → ℕ → Option A → Option ℕ
ready_of ready none = none
ready_of ready (some _) = some ready

module _ (o : Outside) where
  open o use {conditions}

  unfoldable pub set_phase : Mosquitto → Bytes → Bool → Bytes → Bytes → Mosquitto
  set_phase m phase ready reason text = record m {
    status = record m.status {
      phase = phase;
      observed_generation = m.meta.generation;
      conditions = conditions.set m.status.conditions (record {
        kind = condition_ready;
        status = ready;
        observed_generation = m.meta.generation;
        reason = reason;
        message = text;
      });
    };
  }

  -- The number of users is an `int32` in Go, and the users of a namespace are fewer.
  unfoldable pub set_users_condition : Mosquitto → ℕ → Mosquitto
  set_users_condition m accepted = record m {
    status = record m.status {
      users = accepted;
      conditions = conditions.set m.status.conditions (users_condition m.meta.generation accepted);
    };
  }

  unfoldable pub fetch_broker : Key → Pass o (Option Mosquitto)
  fetch_broker key = ask o (Call.fetch_broker key) (λ c. c.brokers key)

  unfoldable pub update_broker : Mosquitto → Pass o ⊤
  update_broker m =
      tell o (Call.update_broker (key_of_broker m))
        (λ c. record c { brokers = write (key_of_broker m) m c.brokers })

  unfoldable pub persist_over : Mosquitto → Option Mosquitto → Pass o ⊤
  persist_over m none = raise not_found
  persist_over m (some stored) =
      if status_unchanged stored.status m.status
      then pure tt
      else update_broker (record stored { status = m.status })

  unfoldable pub persist_status : Mosquitto → Pass o ⊤
  persist_status m = do stored ← fetch_broker (key_of_broker m); persist_over m stored

  -- The switch of `updateStatus` over a StatefulSet that exists.
  unfoldable pub phase_of : Mosquitto → ℕ → Mosquitto
  phase_of m ready =
      if ltb 0 m.spec.replicas && leb m.spec.replicas ready
      then set_phase m phase_ready true (codes "AllReplicasReady")
          (ready_text ready m.spec.replicas)
      else if ltb 0 ready
      then set_phase m phase_progressing false (codes "ReplicasNotReady")
          (ready_text ready m.spec.replicas)
      else set_phase m phase_pending false (codes "NoReplicasReady") (ready_text 0 m.spec.replicas)

  abbrev pub with_ready : Mosquitto → ℕ → Mosquitto
  with_ready m ready = record m { status = record m.status { ready_replicas = ready } }

  -- The number of ready pods of the StatefulSet that was read; `none` where there is none.
  unfoldable pub status_of : Mosquitto → Option ℕ → Mosquitto
  status_of m (some ready) = phase_of (with_ready m ready) ready
  status_of m none =
      set_phase (with_ready m 0) phase_pending false (codes "StatefulSetNotFound")
        (codes "Waiting for the StatefulSet to be created")

  unfoldable pub fetch_ready : Key → Pass o (Option ℕ)
  fetch_ready key =
      ask o (Call.fetch stateful_set key)
        (λ c. ready_of (c.ready_replicas key) (c.objects stateful_set key))

  unfoldable pub update_status : Mosquitto → Pass o ⊤
  update_status m = do
    ready ← fetch_ready (record { namespace = m.meta.namespace; name = stateful_set_name m })
    persist_status (status_of m ready)
