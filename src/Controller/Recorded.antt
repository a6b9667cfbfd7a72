-- ===== src/Controller/Recorded.antt =====
-- The status that a pass leaves on the stored Mosquitto.
use mathlib.Core.Bool.{false≢true}
use mathlib.Core.Logic.{ite}
use mosquitto_operator.Base.{
  ℕ, ◌≡◌, refl, sym, ◌∙◌, inl, inr, Bool, true, false, ◌&&◌, Option, none, some, List, Bytes,
  =?_refl, Bool-cases, arith,
}
use mosquitto_operator.Base.Results.{Result, ok, err, Error}
use mosquitto_operator.Api.{Mosquitto, MosquittoStatus}
use mosquitto_operator.Labels.{stateful_set_name}
use mosquitto_operator.Controller.Cluster.{Key, stateful_set, Cluster, Call, ◌=key◌}
use mosquitto_operator.Controller.Conditions.{
  condition_ready, find, conditions_discrete, status_unchanged,
}
use mosquitto_operator.Controller.Exec.{⊤, Outside, State, ask, tell}
use mosquitto_operator.Controller.Statuses.{
  phase_failed, key_of_broker, set_phase, fetch_broker, update_broker, persist_over, persist_status,
  phase_of, status_of, ready_of, fetch_ready, update_status,
}
use mosquitto_operator.Controller.Passes.{fail_pass, reason_reconcile_failed}
use mosquitto_operator.Controller.Within.{traced}

-- No call of the API fails.
abbrev pub NoFaults : Outside → Type 0
NoFaults o = (calls : List Call) (call : Call) → o.fault calls call ≡ none

pub ite_sound : {P : Type 0} (d : Dec P) → ite d true false ≡ true → P
ite_sound (yes p) h = p
ite_sound (no n) h = absurd (false≢true h)

and_left : (a b : Bool) → (a && b) ≡ true → a ≡ true
and_left a b h = ground arith

status_unchanged-eq : (a b : MosquittoStatus) → status_unchanged a b ≡ true → b ≡ a
unfolding status_unchanged
status_unchanged-eq a b h =
    ground (arith, ite_sound (conditions_discrete a.conditions b.conditions))

key_test : (j k : Key) → j ≡ k → (j =key k) ≡ true
key_test j k e = rw (e, =?_refl k.namespace, =?_refl k.name) refl

-- The number of ready pods that a pass reads; `none` where there is no StatefulSet.
abbrev pub ready_in : Mosquitto → Cluster → Option ℕ
ready_in m c =
    let key : Key = record { namespace = m.meta.namespace; name = stateful_set_name m } in
    ready_of (c.ready_replicas key) (c.objects stateful_set key)

module _ (o : Outside) where
  open o use {conditions, error_text, crypto}
  open crypto use {Reader}

  module _ (quiet : NoFaults o) where
    pub asked :
        {A : Type 0} (call : Call) (answer : Cluster → A) (s : State Reader)
        → ask o call answer s ≡ (ok (answer s.cluster), traced o call s)
    unfolding ask
    asked call answer s = rw (quiet s.trace call) refl

    told :
        (call : Call) (effect : Cluster → Cluster) (s : State Reader)
        → tell o call effect s ≡ (ok tt, record (traced o call s) { cluster = effect s.cluster })
    unfolding tell
    told call effect s = rw (quiet s.trace call) refl

    -- The stored Mosquitto has the status.
    abbrev Records : Mosquitto → Mosquitto → Result ⊤ × State Reader → Type 0
    Records stored m done =
        (done.0 ≡ ok tt)
        × (done.1.cluster.brokers (key_of_broker m) ≡ some (record stored { status = m.status }))

    persist_over-Records :
        (stored m : Mosquitto) (s : State Reader)
        → s.cluster.brokers (key_of_broker m) ≡ some stored
        → key_of_broker stored ≡ key_of_broker m
        → Records stored m (persist_over o m (some stored) s)
    unfolding persist_over update_broker
    persist_over-Records stored m s e named =
        elim (Bool-cases (status_unchanged stored.status m.status)) [
          | inl q ↦ rw q (refl, rw (status_unchanged-eq stored.status m.status q) e)
          | inr q ↦ rw (q, told _ _ _) (refl, rw (key_test _ _ named) refl)
        ]

    persist_status-Records :
        (stored m : Mosquitto) (s : State Reader)
        → s.cluster.brokers (key_of_broker m) ≡ some stored
        → key_of_broker stored ≡ key_of_broker m
        → Records stored m (persist_status o m s)
    unfolding persist_status fetch_broker
    persist_status-Records stored m s e named =
        rw (asked (Call.fetch_broker (key_of_broker m)) (λ c. c.brokers (key_of_broker m)) s, e)
          (persist_over-Records stored m (traced o (Call.fetch_broker (key_of_broker m)) s) e named)

    -- The same, for a changed copy of the Mosquitto.
    pub persist_status-Records_at :
        (stored m : Mosquitto) (key : Key) (s : State Reader)
        → key_of_broker m ≡ key
        → s.cluster.brokers key ≡ some stored
        → key_of_broker stored ≡ key
        → ((persist_status o m s).0 ≡ ok tt)
          × ((persist_status o m s).1.cluster.brokers key
              ≡ some (record stored { status = m.status }))
    persist_status-Records_at stored m key s same e named =
        rw (← same) (persist_status-Records stored m s (rw same e) (named ∙ sym same))

  set_phase-meta :
      (m : Mosquitto) (phase : Bytes) (ready : Bool) (reason text : Bytes)
      → (set_phase o m phase ready reason text).meta ≡ m.meta
  unfolding set_phase
  set_phase-meta m phase ready reason text = refl

  status_of-meta : (m : Mosquitto) (x : Option ℕ) → (status_of o m x).meta ≡ m.meta
  unfolding status_of phase_of set_phase
  status_of-meta m none = refl
  status_of-meta m (some ready) = ground arith

  -- Where no call fails, `updateStatus` returns no error and leaves the stored Mosquitto with the status that
  -- follows from the number of ready pods, and with its metadata and its spec.
  pub update_status_records :
      (m stored : Mosquitto) (s : State Reader)
      → NoFaults o
      → s.cluster.brokers (key_of_broker m) ≡ some stored
      → key_of_broker stored ≡ key_of_broker m
      → (update_status o m s).0 ≡ ok tt
        × ((update_status o m s).1.cluster.brokers (key_of_broker m)
            ≡ some (record stored { status = (status_of o m (ready_in m s.cluster)).status }))
  unfolding update_status fetch_ready
  update_status_records m stored s quiet e named =
      let key : Key = record { namespace = m.meta.namespace; name = stateful_set_name m } in
      let call = Call.fetch stateful_set key in
      rw (asked quiet call (λ c. ready_of (c.ready_replicas key) (c.objects stateful_set key)) s) (
        persist_status-Records_at quiet stored (status_of o m (ready_in m s.cluster))
          (key_of_broker m) (traced o call s) (rw (status_of-meta m (ready_in m s.cluster)) refl) e
          named)

  -- Where no call fails, `failPass` returns the error and leaves the stored Mosquitto with the phase
  -- Failed, its generation observed and a Ready condition that is false and carries the error, and with its
  -- metadata and its spec.
  pub fail_pass_records :
      (m stored : Mosquitto) (e : Error) (s : State Reader)
      → NoFaults o
      → s.cluster.brokers (key_of_broker m) ≡ some stored
      → key_of_broker stored ≡ key_of_broker m
      → (new : Mosquitto) × ((fail_pass o m e s).0 ≡ err e)
        × ((fail_pass o m e s).1.cluster.brokers (key_of_broker m) ≡ some new)
        × (new.meta ≡ stored.meta)
        × (new.spec ≡ stored.spec)
        × (new.status.phase ≡ phase_failed)
        × (new.status.observed_generation ≡ m.meta.generation)
        × (find condition_ready new.status.conditions
            ≡ some (record {
              kind = condition_ready;
              status = false;
              observed_generation = m.meta.generation;
              reason = reason_reconcile_failed;
              message = error_text e;
            }))
  unfolding fail_pass set_phase
  fail_pass_records m stored e s quiet h named =
      let failed = set_phase o m phase_failed false reason_reconcile_failed (error_text e) in
      (
        record stored { status = failed.status },
        refl,
        (persist_status-Records_at quiet stored failed (key_of_broker m) s refl h named).1,
        refl,
        refl,
        refl,
        refl,
        conditions.find-set _ _,
      )
