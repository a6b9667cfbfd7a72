-- ===== src/Controller/Reported.antt =====
-- What a Mosquitto that is refused says of it.
use mosquitto_operator.Base.{ℕ, ◌≡◌, refl, ap, true, false, Option, none, some, ◌++◌, codes}
use mosquitto_operator.Base.Results.{ok, Message}
use mosquitto_operator.Api.{Mosquitto, MosquittoStatus}
use mosquitto_operator.Config.{validate_spec_config}
use mosquitto_operator.Controller.Cluster.{Key, Call}
use mosquitto_operator.Controller.Conditions.{condition_ready, find}
use mosquitto_operator.Controller.Exec.{⊤, Outside, pure, State, Pass}
use mosquitto_operator.Controller.Objects.{Reconciler}
use mosquitto_operator.Controller.Passes.{
  namespace_granted, refuse_config, refuse_pass, act, reconcile_broker, reconcile_found, reconcile,
  reason_config_directive_refused,
}
use mosquitto_operator.Controller.Recorded.{NoFaults, asked, persist_status-Records_at}
use mosquitto_operator.Controller.Statuses.{
  key_of_broker, fetch_broker, persist_status, set_phase, phase_failed,
}
use mosquitto_operator.Controller.Within.{traced}

module _ (o : Outside) where
  open o use {conditions, sprintf, crypto}
  open crypto use {Reader}

  abbrev refusal_of : Mosquitto → Message → Mosquitto
  refusal_of m e =
      set_phase o m phase_failed false reason_config_directive_refused
        (sprintf e ++ codes "; nothing was written, the broker keeps its running configuration")

  refused_broker :
      (r : Reconciler) (m : Mosquitto) (e : Message)
      → namespace_granted r m.meta.namespace ≡ true
      → validate_spec_config m ≡ some e
      → reconcile_broker o r m ≡ persist_status o (record m { status = (refusal_of m e).status })
  unfolding reconcile_broker refuse_pass refuse_config act
  refused_broker r m e granted refused = rw (granted, refused) refl

  refused_found :
      (r : Reconciler) (key : Key) (m : Mosquitto) (e : Message) (deleted : Option ℕ)
      → deleted ≡ none
      → namespace_granted r m.meta.namespace ≡ true
      → validate_spec_config m ≡ some e
      → ◌≡◌ {A = Pass o ⊤}
          (elim deleted [ none ↦ reconcile_broker o r m | some t ↦ pure tt ])
          (persist_status o (record m { status = (refusal_of m e).status }))
  refused_found r key m e deleted alive granted refused =
      rw alive (refused_broker r m e granted refused)

  refused_reconcile :
      (r : Reconciler) (key : Key) (m : Mosquitto) (e : Message) (s : State Reader)
      → NoFaults o
      → s.cluster.brokers key ≡ some m
      → m.meta.deletion_timestamp ≡ none
      → namespace_granted r m.meta.namespace ≡ true
      → validate_spec_config m ≡ some e
      → reconcile o r key s
        ≡ persist_status o
            (record m { status = (refusal_of m e).status })
            (traced o (Call.fetch_broker key) s)
  unfolding reconcile reconcile_found fetch_broker
  refused_reconcile r key m e s quiet found alive granted refused =
      rw (asked o quiet (Call.fetch_broker key) (λ c. c.brokers key) s, found)
        (ap (λ (pass : Pass o ⊤). pass (traced o (Call.fetch_broker key) s))
          (refused_found r key m e m.meta.deletion_timestamp alive granted refused))

  -- Where no call fails, a pass over a Mosquitto whose configuration is refused returns no error, and leaves the
  -- Mosquitto in the phase Failed, with a Ready condition that is false and carries the reason and the line, and
  -- with its metadata and its spec.
  pub refused_config_is_reported :
      (r : Reconciler) (key : Key) (m : Mosquitto) (e : Message) (s : State Reader)
      → NoFaults o
      → s.cluster.brokers key ≡ some m
      → key_of_broker m ≡ key
      → m.meta.deletion_timestamp ≡ none
      → namespace_granted r m.meta.namespace ≡ true
      → validate_spec_config m ≡ some e
      → (status : MosquittoStatus) × ((reconcile o r key s).0 ≡ ok tt)
        × ((reconcile o r key s).1.cluster.brokers key ≡ some (record m { status = status }))
        × (status.phase ≡ phase_failed)
        × (find condition_ready status.conditions
            ≡ some (record {
              kind = condition_ready;
              status = false;
              observed_generation = m.meta.generation;
              reason = reason_config_directive_refused;
              message =
                  sprintf e
                  ++ codes "; nothing was written, the broker keeps its running configuration";
            }))
  unfolding set_phase
  refused_config_is_reported r key m e s quiet found named alive granted refused =
      let new : Mosquitto = record m { status = (refusal_of m e).status } in
      let done =
        persist_status-Records_at o quiet m new key (traced o (Call.fetch_broker key) s) named found
          named in
      (
        (refusal_of m e).status,
        rw (refused_reconcile r key m e s quiet found alive granted refused) done.0,
        rw (refused_reconcile r key m e s quiet found alive granted refused) done.1,
        refl,
        conditions.find-set _ _,
      )
