-- ===== src/Controller/Foreign/Passes.antt =====
-- The whole pass, within what it may change, whatever calls of the API fail.
use mosquitto_operator.Base.{
  ◌≡◌, inl, inr, Bool, true, false, not, Option, none, some, [], Bytes, ℕ,
}
use mosquitto_operator.Base.Dict.{get_or}
use mosquitto_operator.Base.Results.{Result, ok, err, Error, Message}
use mosquitto_operator.Api.{Mosquitto}
use mosquitto_operator.Auth.Defs.{Verdict}
use mosquitto_operator.Builder.Services.{build_headless_service, build_client_service}
use mosquitto_operator.Config.{validate_spec_config}
use mosquitto_operator.Controller.Cluster.{Key, Call}
use mosquitto_operator.Controller.Exec.{Outside, pure, State}
use mosquitto_operator.Controller.Objects.{Reconciler}
use mosquitto_operator.Controller.Passes.{
  namespace_granted, not_granted, refuse_namespace, refuse_config, refuse_pass, reconcile_resources,
  fail_pass, finish, act, reconcile_broker, reconcile_found, reconcile, failed_with,
  reason_reconcile_failed, reason_namespace_not_granted, refused_with,
}
use mosquitto_operator.Controller.Statuses.{
  fetch_broker, set_phase, set_users_condition, phase_failed,
}
use mosquitto_operator.Controller.Users.{UserPass, no_verdict, write_user_statuses, report_users}
use mosquitto_operator.Controller.Within.{
  ask_cases, traced, Change, Within, Within-pure, Within-raise, Within-bind, Within-attempt,
  Within-if, Within-for_each,
}
use mosquitto_operator.Controller.Foreign.{
  OnlyOwn, only_own, AreNamed, IsConfined, OnlyOwn-IsConfined,
}
use mosquitto_operator.Controller.Foreign.Reads.{
  list_users-Within, render_users-Within, refuse_tls_secret-Within,
}
use mosquitto_operator.Controller.Foreign.Steps.{
  reconcile_config_map-OnlyOwn, reconcile_service-OnlyOwn, reconcile_auth_secret-OnlyOwn,
  reconcile_stateful_set-OnlyOwn, persist_user_status-OnlyOwn, persist_status-OnlyOwn,
  update_status-OnlyOwn,
}

module _ (o : Outside) (uid : Bytes) where
  open o use {error_text}

  pub report_users-OnlyOwn :
      (namespace broker : Bytes) (verdict : Verdict)
      → Within (only_own uid) (report_users o namespace broker verdict)
  unfolding report_users
  report_users-OnlyOwn namespace broker verdict =
      Within-bind (only_own uid) _ _ (list_users-Within o (only_own uid) namespace broker) (λ users.
        Within-for_each (only_own uid) _ users
          (λ u. persist_user_status-OnlyOwn o uid u u.status.username verdict))

  write_user_statuses-OnlyOwn :
      (pass : UserPass) → Within (only_own uid) (write_user_statuses o pass)
  unfolding write_user_statuses
  write_user_statuses-OnlyOwn pass = Within-for_each (only_own uid) _ pass.users (λ u.
      persist_user_status-OnlyOwn o uid u (get_or u.meta.name [] pass.usernames)
        (get_or u.meta.name no_verdict pass.verdicts))

  fail_pass-OnlyOwn : (m : Mosquitto) (e : Error) → Within (only_own uid) (fail_pass o m e)
  unfolding fail_pass
  fail_pass-OnlyOwn m e =
      Within-bind (only_own uid) _ _
        (Within-attempt (only_own uid) _ (
          persist_status-OnlyOwn o uid
            (set_phase o m phase_failed false reason_reconcile_failed (error_text e))))
        (λ recorded. Within-raise (only_own uid) e)

  finish-OnlyOwn : (m : Mosquitto) (r : Result ℕ) → Within (only_own uid) (finish o m r)
  unfolding finish
  finish-OnlyOwn m (ok accepted) = update_status-OnlyOwn o uid (set_users_condition o m accepted)
  finish-OnlyOwn m (err e) = fail_pass-OnlyOwn m e

  refuse_config-OnlyOwn :
      (r : Reconciler) (m : Mosquitto) (e : Option Message)
      → Within (only_own uid) (refuse_config o r m e)
  unfolding refuse_config
  refuse_config-OnlyOwn r m none = refuse_tls_secret-Within o (only_own uid) r m
  refuse_config-OnlyOwn r m (some e) = Within-pure (only_own uid) _

  refuse_pass-OnlyOwn : (r : Reconciler) (m : Mosquitto) → Within (only_own uid) (refuse_pass o r m)
  unfolding refuse_pass refuse_namespace
  refuse_pass-OnlyOwn r m =
      Within-if (only_own uid) (not (namespace_granted r m.meta.namespace)) _ _
        (Within-bind (only_own uid) _ _
          (Within-attempt (only_own uid) _
            (report_users-OnlyOwn m.meta.namespace m.meta.name (not_granted r m.meta.namespace)))
          (λ outcome. Within-pure (only_own uid) (
            failed_with o m reason_namespace_not_granted (not_granted r m.meta.namespace).message,
            refused_with o outcome,
          )))
        (refuse_config-OnlyOwn r m (validate_spec_config m))

module _ (o : Outside) where
  reconcile_resources-OnlyOwn :
      (r : Reconciler) (m : Mosquitto) → Within (only_own m.meta.uid) (reconcile_resources o r m)
  unfolding reconcile_resources
  reconcile_resources-OnlyOwn r m =
      let w : Change = only_own m.meta.uid in
      Within-bind w _ _ (render_users-Within o w r m) (λ pass.
        Within-bind w _ _ (reconcile_auth_secret-OnlyOwn o m pass.files) (λ _.
          Within-bind w _ _ (write_user_statuses-OnlyOwn o m.meta.uid pass) (λ _.
            Within-bind w _ _ (reconcile_config_map-OnlyOwn o m) (λ _.
              Within-bind w _ _ (reconcile_service-OnlyOwn o m (build_headless_service m)) (λ _.
                Within-bind w _ _ (reconcile_service-OnlyOwn o m (build_client_service m)) (λ _.
                  Within-bind w _ _ (reconcile_stateful_set-OnlyOwn o r m)
                    (λ _. Within-pure w pass.accepted)))))))

  act-OnlyOwn :
      (r : Reconciler) (m : Mosquitto) (refused : Result Bool)
      → Within (only_own m.meta.uid) (act o r m refused)
  unfolding act
  act-OnlyOwn r m (err e) = fail_pass-OnlyOwn o m.meta.uid m e
  act-OnlyOwn r m (ok true) = persist_status-OnlyOwn o m.meta.uid m
  act-OnlyOwn r m (ok false) =
      Within-bind (only_own m.meta.uid) _ _
        (Within-attempt (only_own m.meta.uid) _ (reconcile_resources-OnlyOwn r m))
        (λ outcome. finish-OnlyOwn o m.meta.uid m outcome)

  reconcile_broker-OnlyOwn :
      (r : Reconciler) (m : Mosquitto) → Within (only_own m.meta.uid) (reconcile_broker o r m)
  unfolding reconcile_broker
  reconcile_broker-OnlyOwn r m =
      Within-bind (only_own m.meta.uid) _ _ (refuse_pass-OnlyOwn o m.meta.uid r m)
        (λ checked. act-OnlyOwn r (record m { status = checked.0.status }) checked.1)

  found-OnlyOwn :
      (r : Reconciler) (key : Key) (m : Mosquitto) (deleted : Option ℕ)
      → Within
          (only_own m.meta.uid)
          (elim deleted [ none ↦ reconcile_broker o r m | some t ↦ pure tt ])
  found-OnlyOwn r key m none = reconcile_broker-OnlyOwn r m
  found-OnlyOwn r key m (some t) = Within-pure (only_own m.meta.uid) tt

  reconcile-OnlyOwn :
      (r : Reconciler) (key : Key) (m : Mosquitto) (s : State o.crypto.Reader)
      → s.cluster.brokers key ≡ some m
      → OnlyOwn m.meta.uid s.cluster (reconcile o r key s).1.cluster
  unfolding reconcile reconcile_found fetch_broker
  reconcile-OnlyOwn r key m s found =
      elim (ask_cases o (Call.fetch_broker key) (λ c. c.brokers key) s) [
        | inl q ↦ rw q (
            rw found (
              (found-OnlyOwn r key m m.meta.deletion_timestamp).at
                (traced o (Call.fetch_broker key) s)))
        | inr (e, q) ↦ rw q ((only_own m.meta.uid).stay s.cluster)
      ]

  -- In a cluster that stores every Mosquitto under its own namespace and name, a pass for a stored Mosquitto
  -- changes only objects that this Mosquitto controls, deletes none, gives what it creates to this Mosquitto, and
  -- leaves the metadata and the spec of every Mosquitto and user alone, whatever calls fail.
  pub reconcile-IsConfined :
      (r : Reconciler) (key : Key) (m : Mosquitto) (s : State o.crypto.Reader)
      → AreNamed s.cluster
      → s.cluster.brokers key ≡ some m
      → IsConfined m.meta.uid s.cluster (reconcile o r key s).1.cluster
  reconcile-IsConfined r key m s named found =
      OnlyOwn-IsConfined m.meta.uid s.cluster (reconcile o r key s).1.cluster named
        (reconcile-OnlyOwn r key m s found)
