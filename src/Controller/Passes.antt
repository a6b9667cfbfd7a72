-- ===== src/Controller/Passes.antt =====
-- internal/controller: the checks that refuse a pass (refusals.go), and the pass itself.
use mosquitto_operator.Base.{
  ℕ, Bool, true, false, not, ◌||◌, Option, none, some, [], ◌∷◌, ◌++◌, Bytes, codes, if◌then◌else◌,
}
use mosquitto_operator.Base.Dict.{member}
use mosquitto_operator.Base.Results.{Result, ok, err, Error, Message}
use mosquitto_operator.Base.Strings.{join}
use mosquitto_operator.Api.{Mosquitto, MosquittoTls, is_tls_enabled}
use mosquitto_operator.Auth.Defs.{Verdict, refused}
use mosquitto_operator.Builder.Services.{build_headless_service, build_client_service}
use mosquitto_operator.Config.{validate_spec_config}
use mosquitto_operator.Controller.Cluster.{Key, secret, Stored}
use mosquitto_operator.Controller.Exec.{⊤, Outside, pure, raise, ◌>>=◌, ◌>>◌, attempt, Pass}
use mosquitto_operator.Controller.Objects.{
  Reconciler, message, read, reconcile_config_map, reconcile_service, reconcile_stateful_set,
  reconcile_auth_secret,
}
use mosquitto_operator.Controller.Statuses.{
  phase_failed, set_phase, set_users_condition, fetch_broker, persist_status, update_status,
}
use mosquitto_operator.Controller.Users.{
  consumable, consumable_label, consumable_label_value, reason_secret_not_found,
  reason_secret_not_consumable, reading, render_users, write_user_statuses, report_users,
  report_users_of_missing_broker,
}

abbrev pub reason_config_directive_refused : Bytes
reason_config_directive_refused = codes "ConfigDirectiveRefused"

abbrev pub reason_namespace_not_granted : Bytes
reason_namespace_not_granted = codes "NamespaceNotGranted"

abbrev pub reason_reconcile_failed : Bytes
reason_reconcile_failed = codes "ReconcileFailed"

unfoldable pub namespace_granted : Reconciler → Bytes → Bool
namespace_granted r namespace = elim r.secret_namespaces [
  | [] ↦ true
  | n ∷ ns ↦ member namespace (n ∷ ns)
]

-- The list is printed between its brackets, its items apart by spaces.
abbrev pub not_granted : Reconciler → Bytes → Verdict
not_granted r namespace =
    refused reason_namespace_not_granted
      (codes
        "the operator runs with --secret-namespaces=[%s], which does not grant it the Secrets of namespace %s")
      (join r.secret_namespaces b' ' ∷ namespace ∷ [])

unfoldable pub tls_secret_of : Option MosquittoTls → Bytes
tls_secret_of none = []
tls_secret_of (some t) = t.secret_name

module _ (o : Outside) where
  open o use {sprintf, error_text}

  unfoldable pub failed_with : Mosquitto → Bytes → Message → Mosquitto
  failed_with m reason text = set_phase o m phase_failed false reason (sprintf text)

  missing_tls : Mosquitto → Bytes → Mosquitto
  missing_tls m name = failed_with m reason_secret_not_found (
      message
        (codes
          "TLS Secret %s does not exist; with --secret-security=true it must exist and carry %s=%s")
        (name ∷ consumable_label ∷ consumable_label_value ∷ []))

  unconsumable_tls : Mosquitto → Bytes → Mosquitto
  unconsumable_tls m name = failed_with m reason_secret_not_consumable (
      message (codes "TLS Secret %s does not carry %s=%s, which --secret-security=true requires")
        (name ∷ consumable_label ∷ consumable_label_value ∷ []))

  -- The Mosquitto with its new status, and whether the pass is refused.
  unfoldable pub judge_tls :
      Mosquitto → Bytes → Result (Option (Stored secret)) → Mosquitto × Result Bool
  unfolding missing_tls unconsumable_tls
  judge_tls m name (err e) = (m, err e)
  judge_tls m name (ok none) = (missing_tls m name, ok true)
  judge_tls m name (ok (some obj)) =
      if consumable obj.content.labels then (m, ok false) else (unconsumable_tls m name, ok true)

  unfoldable pub refuse_tls_secret : Reconciler → Mosquitto → Pass o (Mosquitto × Result Bool)
  refuse_tls_secret r m =
      let name = tls_secret_of m.spec.tls in
      if not r.secret_security || not (is_tls_enabled m) then pure (m, ok false) else (do
        found ← attempt (
            reading (message (codes "reading the metadata of TLS Secret %s: %w") (name ∷ []))
              (read o secret (record { namespace = m.meta.namespace; name = name })))
        pure (judge_tls m name found))

  -- `true` beside the outcome of the users' statuses.
  abbrev pub refused_with : Result ⊤ → Result Bool
  refused_with (ok _) = ok true
  refused_with (err e) = err e

  unfoldable pub refuse_namespace : Reconciler → Mosquitto → Pass o (Mosquitto × Result Bool)
  refuse_namespace r m = do
    outcome ← attempt (report_users o m.meta.namespace m.meta.name (not_granted r m.meta.namespace))
    pure (
      failed_with m reason_namespace_not_granted (not_granted r m.meta.namespace).message,
      refused_with outcome,
    )

  unfoldable pub refuse_config :
      Reconciler → Mosquitto → Option Message → Pass o (Mosquitto × Result Bool)
  refuse_config r m none = refuse_tls_secret r m
  refuse_config r m (some e) = pure (
    set_phase o m phase_failed false reason_config_directive_refused
        (sprintf e ++ codes "; nothing was written, the broker keeps its running configuration"),
    ok true,
  )

  unfoldable pub refuse_pass : Reconciler → Mosquitto → Pass o (Mosquitto × Result Bool)
  refuse_pass r m =
      if not (namespace_granted r m.meta.namespace)
      then refuse_namespace r m
      else refuse_config r m (validate_spec_config m)

  unfoldable pub reconcile_resources : Reconciler → Mosquitto → Pass o ℕ
  reconcile_resources r m = do
    pass ← render_users o r m
    reconcile_auth_secret o m pass.files
    write_user_statuses o pass
    reconcile_config_map o m
    reconcile_service o m (build_headless_service m)
    reconcile_service o m (build_client_service m)
    reconcile_stateful_set o r m
    pure pass.accepted

  -- The failure is recorded on the resource, and returned.
  unfoldable pub fail_pass : Mosquitto → Error → Pass o ⊤
  fail_pass m e = do
    recorded ←
        attempt (
          persist_status o
            (set_phase o m phase_failed false reason_reconcile_failed (error_text e)))
    raise e

  unfoldable pub finish : Mosquitto → Result ℕ → Pass o ⊤
  finish m (ok accepted) = update_status o (set_users_condition o m accepted)
  finish m (err e) = fail_pass m e

  -- What follows on the checks.
  unfoldable pub act : Reconciler → Mosquitto → Result Bool → Pass o ⊤
  act r m (err e) = fail_pass m e
  act r m (ok true) = persist_status o m
  act r m (ok false) = do outcome ← attempt (reconcile_resources r m); finish m outcome

  -- The checks change the status of the Mosquitto and nothing else of it.
  unfoldable pub reconcile_broker : Reconciler → Mosquitto → Pass o ⊤
  reconcile_broker r m = do
    checked ← refuse_pass r m
    act r (record m { status = checked.0.status }) checked.1

  unfoldable pub reconcile_found : Reconciler → Key → Option Mosquitto → Pass o ⊤
  reconcile_found r key none = report_users_of_missing_broker o key
  reconcile_found r key (some m) = elim m.meta.deletion_timestamp [
    | none ↦ reconcile_broker r m
    | some t ↦ pure tt
  ]

  unfoldable pub reconcile : Reconciler → Key → Pass o ⊤
  reconcile r key = do found ← fetch_broker o key; reconcile_found r key found
