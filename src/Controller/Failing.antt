-- ===== src/Controller/Failing.antt =====
-- What a pass that fails leaves on the stored Mosquitto (internal/controller/mosquitto_controller.go).
use mosquitto_operator.Base.{
  ℕ, ◌≡◌, refl, sym, ap, ◌∙◌, inl, inr, Bool, true, false, not, ◌||◌, if◌then◌else◌, Option, none,
  some, [], Bytes, Bool-cases,
}
use mosquitto_operator.Base.Dict.{get_or}
use mosquitto_operator.Base.Results.{Result, ok, err, Error, Message}
use mosquitto_operator.Api.{Mosquitto, MosquittoStatus, MosquittoUser, is_tls_enabled}
use mosquitto_operator.Auth.Defs.{Verdict}
use mosquitto_operator.Config.{validate_spec_config}
use mosquitto_operator.Controller.Cluster.{
  Key, Kind, config_map, service, stateful_set, secret, Content, Cluster, Call,
}
use mosquitto_operator.Controller.Conditions.{condition_ready, find, user_status_unchanged}
use mosquitto_operator.Controller.Exec.{⊤, Outside, after, pure, State, Pass, ask}
use mosquitto_operator.Controller.Foreign.Reads.{
  list_users-Within, render_users-Within, refuse_tls_secret-Within,
}
use mosquitto_operator.Controller.Objects.{
  Reconciler, fetch, read, ensure, reconcile_config_map, reconcile_service, reconcile_stateful_set,
  reconcile_auth_secret,
}
use mosquitto_operator.Controller.Passes.{
  namespace_granted, not_granted, refuse_namespace, refuse_config, refuse_pass, reconcile_resources,
  fail_pass, finish, act, reconcile_broker, reconcile_found, reconcile, reason_reconcile_failed,
  refuse_tls_secret,
}
use mosquitto_operator.Controller.Recorded.{
  NoFaults, asked, persist_status-Records_at, update_status_records, fail_pass_records,
}
use mosquitto_operator.Controller.Settled.{err_not_ok}
use mosquitto_operator.Controller.Statuses.{
  key_of_broker, fetch_broker, set_users_condition, phase_failed,
}
use mosquitto_operator.Controller.Users.{
  UserPass, no_verdict, update_user, persist_user_status, verdict_status, write_user_statuses,
  report_users,
}
use mosquitto_operator.Controller.Within.{
  traced, Change, Within, Within-pure, Within-lift, Within-bind, Within-if, Within-reading,
  Within-for_each, tell-rel,
}
use mosquitto_operator.Controller.Writes.{ensure-Within}

-- Every stored Mosquitto as it was.
abbrev same_brokers : Change
same_brokers = record {
  rel = λ a b. b.brokers ≡ a.brokers;
  stay = λ c. refl;
  then_ = λ a b c h g. g ∙ h;
}

module _ (o : Outside) where
  open o use {conditions, error_text, crypto}
  open crypto use {Reader}

  ensure-same :
      (k : Kind) (call : Key → Call) (m : Mosquitto) (desired : Content k)
      → Within same_brokers (ensure o k (λ key. ask o (call key) (λ c. c.objects k key)) m desired)
  ensure-same k call m desired = ensure-Within o same_brokers k desired (λ obj c. refl) call m

  persist_user_status-same :
      (u : MosquittoUser) (username : Bytes) (verdict : Verdict)
      → Within same_brokers (persist_user_status o u username verdict)
  unfolding persist_user_status update_user
  persist_user_status-same u username verdict =
      Within-if same_brokers (user_status_unchanged (verdict_status o u username verdict) u.status)
        _ _ (Within-pure same_brokers tt)
        (Within-reading same_brokers _ _ (record { at = λ s. tell-rel o same_brokers _ _ s refl }))

  report_users-same :
      (namespace broker : Bytes) (verdict : Verdict)
      → Within same_brokers (report_users o namespace broker verdict)
  unfolding report_users
  report_users-same namespace broker verdict =
      Within-bind same_brokers _ _ (list_users-Within o same_brokers namespace broker) (λ users.
        Within-for_each same_brokers _ users
          (λ u. persist_user_status-same u u.status.username verdict))

  write_user_statuses-same : (pass : UserPass) → Within same_brokers (write_user_statuses o pass)
  unfolding write_user_statuses
  write_user_statuses-same pass = Within-for_each same_brokers _ pass.users (λ u.
      persist_user_status-same u (get_or u.meta.name [] pass.usernames)
        (get_or u.meta.name no_verdict pass.verdicts))

  reconcile_resources-same :
      (r : Reconciler) (m : Mosquitto) → Within same_brokers (reconcile_resources o r m)
  unfolding reconcile_resources reconcile_auth_secret reconcile_config_map reconcile_service
      reconcile_stateful_set fetch read
  reconcile_resources-same r m =
      let w : Change = same_brokers in
      Within-bind w _ _ (render_users-Within o w r m) (λ pass.
        Within-bind w _ _ (ensure-same secret (Call.read secret) m _) (λ _.
          Within-bind w _ _ (write_user_statuses-same pass) (λ _.
            Within-bind w _ _ (ensure-same config_map (Call.fetch config_map) m _) (λ _.
              Within-bind w _ _ (ensure-same service (Call.fetch service) m _) (λ _.
                Within-bind w _ _ (ensure-same service (Call.fetch service) m _) (λ _.
                  Within-bind w _ _
                    (Within-bind w _ _ (Within-lift w _)
                      (λ desired. ensure-same stateful_set (Call.fetch stateful_set) m desired))
                    (λ _. Within-pure w pass.accepted)))))))

  -- The checks return no error of their own, and leave every stored Mosquitto as it was.
  abbrev Checks : Cluster → Result (Mosquitto × Result Bool) × State Reader → Type 0
  Checks c done =
      ((x : Mosquitto × Result Bool) × (done.0 ≡ ok x)) × (done.1.cluster.brokers ≡ c.brokers)

  either_ok :
      {A : Type 0} (b : Bool) (p q : Pass o A) (s : State Reader)
      → (x : A) × ((p s).0 ≡ ok x)
      → (x : A) × ((q s).0 ≡ ok x)
      → (x : A) × (((if b then p else q) s).0 ≡ ok x)
  either_ok true p q s h k = h
  either_ok false p q s h k = k

  tls_ok :
      (r : Reconciler) (m : Mosquitto) (s : State Reader)
      → (x : Mosquitto × Result Bool) × ((refuse_tls_secret o r m s).0 ≡ ok x)
  unfolding refuse_tls_secret
  tls_ok r m s =
      either_ok (not r.secret_security || not (is_tls_enabled m)) _ _ s (_, refl) (_, refl)

  refuse_config-Checks :
      (r : Reconciler) (m : Mosquitto) (e : Option Message) (s : State Reader)
      → Checks s.cluster (refuse_config o r m e s)
  unfolding refuse_config
  refuse_config-Checks r m (some e) s = ((_, refl), refl)
  refuse_config-Checks r m none s =
      (tls_ok r m s, (refuse_tls_secret-Within o same_brokers r m).at s)

  refuse_pass-Checks :
      (r : Reconciler) (m : Mosquitto) (s : State Reader) → Checks s.cluster (refuse_pass o r m s)
  unfolding refuse_pass refuse_namespace
  refuse_pass-Checks r m s = elim (Bool-cases (namespace_granted r m.meta.namespace)) [
    | inl g ↦ rw g (refuse_config-Checks r m (validate_spec_config m) s)
    | inr n ↦ rw n (
      (_, refl),
      (report_users-same m.meta.namespace m.meta.name (not_granted r m.meta.namespace)).at s,
    )
  ]

  -- The stored Mosquitto says that the pass failed, and with which error.
  abbrev pub SaysFailed : Key → Mosquitto → Error → Cluster → Type 0
  SaysFailed key m e c =
      (new : Mosquitto) × (c.brokers key ≡ some new)
      × (new.meta ≡ m.meta)
      × (new.spec ≡ m.spec)
      × (new.status.phase ≡ phase_failed)
      × (new.status.observed_generation ≡ m.meta.generation)
      × (find condition_ready new.status.conditions
          ≡ some (record {
            kind = condition_ready;
            status = false;
            observed_generation = m.meta.generation;
            reason = reason_reconcile_failed;
            message = error_text e;
          }))

  err_eq : {A : Type 0} {e d : Error} → ◌≡◌ {A = Result A} (err e) (err d) → e ≡ d
  err_eq h = cc

  module _ (quiet : NoFaults o) (m : Mosquitto) (status : MosquittoStatus) where
    abbrev judged : Mosquitto
    judged = record m { status = status }

    -- From a cluster that stores the Mosquitto, a step that fails records its error.
    abbrev Reports : Pass o ⊤ → Type 0
    Reports pass =
        (e : Error) (s : State Reader)
        → s.cluster.brokers (key_of_broker m) ≡ some m
        → (pass s).0 ≡ err e
        → SaysFailed (key_of_broker m) m e (pass s).1.cluster

    fail_pass-Reports : (d : Error) → Reports (fail_pass o judged d)
    fail_pass-Reports d e s found failed =
        let (new, returned, stored, same, spec, phase, seen, said) =
          fail_pass_records o judged m d s quiet found refl in
        rw (← err_eq (sym returned ∙ failed)) (new, stored, same, spec, phase, seen, said)

    finish-Reports : (r : Result ℕ) → Reports (finish o judged r)
    unfolding finish set_users_condition
    finish-Reports (ok accepted) e s found failed = absurd (
        err_not_ok (
          sym failed
          ∙ (update_status_records o (set_users_condition o judged accepted) m s quiet found
              refl).0))
    finish-Reports (err d) e s found failed = fail_pass-Reports d e s found failed

    act-Reports : (r : Reconciler) (x : Result Bool) → Reports (act o r judged x)
    unfolding act
    act-Reports r (err d) e s found failed = fail_pass-Reports d e s found failed
    act-Reports r (ok true) e s found failed = absurd (
        err_not_ok (
          sym failed
          ∙ (persist_status-Records_at o quiet m judged (key_of_broker m) s refl found refl).0))
    act-Reports r (ok false) e s found failed =
        finish-Reports (reconcile_resources o r judged s).0 e (reconcile_resources o r judged s).1
          (ap (λ brokers. brokers (key_of_broker m)) ((reconcile_resources-same r judged).at s)
            ∙ found)
          failed

  module _ (quiet : NoFaults o) (r : Reconciler) (m : Mosquitto) where
    checked-Reports :
        (x : Mosquitto × Result Bool) (done : Result (Mosquitto × Result Bool)) (e : Error)
        (s : State Reader)
        → done ≡ ok x
        → s.cluster.brokers (key_of_broker m) ≡ some m
        → let rest : Mosquitto × Result Bool → Pass o ⊤ =
            λ checked. act o r (record m { status = checked.0.status }) checked.1 in
          (after (done, s) rest).0 ≡ err e
          → SaysFailed (key_of_broker m) m e (after (done, s) rest).1.cluster
    checked-Reports x (ok y) e s q found failed =
        act-Reports quiet m y.0.status r y.1 e s found failed
    checked-Reports x (err d) e s q found failed = absurd (err_not_ok q)

    reconcile_broker-Reports : Reports quiet m m.status (reconcile_broker o r m)
    unfolding reconcile_broker
    reconcile_broker-Reports e s found failed =
        let checks = refuse_pass-Checks r m s in
        checked-Reports checks.0.0 (refuse_pass o r m s).0 e (refuse_pass o r m s).1 checks.0.1
          (ap (λ brokers. brokers (key_of_broker m)) checks.1 ∙ found) failed

    found-Reports :
        (deleted : Option ℕ)
        → Reports quiet m m.status
            (elim deleted [ none ↦ reconcile_broker o r m | some t ↦ pure tt ])
    found-Reports none e s found failed = reconcile_broker-Reports e s found failed
    found-Reports (some t) e s found failed = absurd (err_not_ok (sym failed))

  reported_at :
      (r : Reconciler) (m : Mosquitto) (e : Error) (s : State Reader)
      → NoFaults o
      → s.cluster.brokers (key_of_broker m) ≡ some m
      → (reconcile o r (key_of_broker m) s).0 ≡ err e
      → SaysFailed (key_of_broker m) m e (reconcile o r (key_of_broker m) s).1.cluster
  unfolding reconcile reconcile_found fetch_broker
  reported_at r m e s quiet found failed =
      let key = key_of_broker m in
      let pass : Pass o ⊤ = elim m.meta.deletion_timestamp [
        | none ↦ reconcile_broker o r m
        | some t ↦ pure tt
      ] in
      let same : reconcile o r key s ≡ pass (traced o (Call.fetch_broker key) s) =
        rw (asked o quiet (Call.fetch_broker key) (λ c. c.brokers key) s, found) refl in
      rw same (
        found-Reports quiet r m m.meta.deletion_timestamp e (traced o (Call.fetch_broker key) s)
          found (ap (λ (done : Result ⊤ × State Reader). done.0) (sym same) ∙ failed))

  -- Where no call of the API fails, a pass over a stored Mosquitto that ends with an error leaves the Mosquitto
  -- in the phase Failed, with its generation observed and a Ready condition that is false and carries the error,
  -- and with its metadata and its spec.
  pub failed_pass_is_reported :
      (r : Reconciler) (key : Key) (m : Mosquitto) (e : Error) (s : State Reader)
      → NoFaults o
      → s.cluster.brokers key ≡ some m
      → key_of_broker m ≡ key
      → (reconcile o r key s).0 ≡ err e
      → SaysFailed key m e (reconcile o r key s).1.cluster
  failed_pass_is_reported r key m e s quiet found named failed =
      rw (← named) (reported_at r m e s quiet (rw named found) (rw named failed))
