-- ===== src/Controller/Refused.antt =====
-- The objects of the cluster in a pass that is refused (internal/controller/refusals.go).
use mosquitto_operator.Base.{
  ◌≡◌, refl, ◌∙◌, ◌⊎◌, inl, inr, true, false, Option, none, some, Bytes, Bool-cases, Option-cases,
  ℕ,
}
use mosquitto_operator.Base.Results.{Result, ok, err, Error, Message}
use mosquitto_operator.Api.{Mosquitto, MosquittoUser, is_tls_enabled}
use mosquitto_operator.Auth.Defs.{Verdict}
use mosquitto_operator.Config.{validate_spec_config}
use mosquitto_operator.Controller.Cluster.{Key, secret, Stored, Cluster, Call}
use mosquitto_operator.Controller.Conditions.{status_unchanged, user_status_unchanged}
use mosquitto_operator.Controller.Exec.{⊤, Outside, pure, State, Pass}
use mosquitto_operator.Controller.Foreign.Reads.{list_users-Within}
use mosquitto_operator.Controller.Objects.{Reconciler, read}
use mosquitto_operator.Controller.Passes.{
  namespace_granted, not_granted, refuse_namespace, refuse_config, refuse_pass, fail_pass, act,
  reconcile_broker, reconcile_found, reconcile, failed_with, refused_with,
  reason_namespace_not_granted, reason_reconcile_failed, tls_secret_of, refuse_tls_secret,
  judge_tls,
}
use mosquitto_operator.Controller.Statuses.{
  key_of_broker, fetch_broker, update_broker, persist_over, persist_status, set_phase, phase_failed,
}
use mosquitto_operator.Controller.Users.{
  consumable, update_user, persist_user_status, verdict_status, report_users,
}
use mosquitto_operator.Controller.Within.{
  ask_cases, traced, Change, Within, Within-pure, Within-raise, Within-bind, Within-attempt,
  Within-if, Within-reading, Within-for_each, Within-ask-bind, tell-rel,
}

-- Every object as it was.
abbrev pub same_objects : Change
same_objects = record {
  rel = λ a b. b.objects ≡ a.objects;
  stay = λ c. refl;
  then_ = λ a b c h g. g ∙ h;
}

-- The TLS Secret is required, and is missing or does not consent.
abbrev pub LacksTls : Reconciler → Mosquitto → Cluster → Type 0
LacksTls r m c =
    (r.secret_security ≡ true)
    × (is_tls_enabled m ≡ true)
    × (elim (c.objects secret
          (record { namespace = m.meta.namespace; name = tls_secret_of m.spec.tls })) [
            | none ↦ false
            | some obj ↦ consumable obj.content.labels
          ]
        ≡ false)

-- The reasons to refuse a pass.
abbrev pub IsRefused : Reconciler → Mosquitto → Cluster → Type 0
IsRefused r m c =
    (namespace_granted r m.meta.namespace ≡ false)
    ⊎ ((e : Message) × (validate_spec_config m ≡ some e))
    ⊎ LacksTls r m c

module _ (o : Outside) where
  open o use {error_text, crypto}
  open crypto use {Reader}

  persist_user_status-same :
      (u : MosquittoUser) (username : Bytes) (verdict : Verdict)
      → Within same_objects (persist_user_status o u username verdict)
  unfolding persist_user_status update_user
  persist_user_status-same u username verdict =
      Within-if same_objects (user_status_unchanged (verdict_status o u username verdict) u.status)
        _ _ (Within-pure same_objects tt)
        (Within-reading same_objects _ _ (record { at = λ s. tell-rel o same_objects _ _ s refl }))

  report_users-same :
      (namespace broker : Bytes) (verdict : Verdict)
      → Within same_objects (report_users o namespace broker verdict)
  unfolding report_users
  report_users-same namespace broker verdict =
      Within-bind same_objects _ _ (list_users-Within o same_objects namespace broker) (λ users.
        Within-for_each same_objects _ users
          (λ u. persist_user_status-same u u.status.username verdict))

  persist_over-same :
      (m : Mosquitto) (x : Option Mosquitto) → Within same_objects (persist_over o m x)
  unfolding persist_over update_broker
  persist_over-same m none = Within-raise same_objects _
  persist_over-same m (some stored) =
      Within-if same_objects (status_unchanged stored.status m.status) _ _
        (Within-pure same_objects tt) (record { at = λ s. tell-rel o same_objects _ _ s refl })

  persist_status-same : (m : Mosquitto) → Within same_objects (persist_status o m)
  unfolding persist_status fetch_broker
  persist_status-same m =
      Within-ask-bind o same_objects _ _ (persist_over o m)
        (λ s. (persist_over-same m (s.cluster.brokers (key_of_broker m))).at s)

  fail_pass-same : (m : Mosquitto) (e : Error) → Within same_objects (fail_pass o m e)
  unfolding fail_pass
  fail_pass-same m e =
      Within-bind same_objects _ _
        (Within-attempt same_objects _ (
          persist_status-same
            (set_phase o m phase_failed false reason_reconcile_failed (error_text e))))
        (λ recorded. Within-raise same_objects e)

  refused_with-same :
      (r : Reconciler) (m : Mosquitto) (outcome : Result ⊤)
      → Within same_objects (act o r m (refused_with o outcome))
  unfolding act
  refused_with-same r m (ok _) = persist_status-same m
  refused_with-same r m (err e) = fail_pass-same m e

  namespace-same :
      (r : Reconciler) (m : Mosquitto)
      → namespace_granted r m.meta.namespace ≡ false
      → Within same_objects (reconcile_broker o r m)
  unfolding reconcile_broker refuse_pass refuse_namespace
  namespace-same r m q = rw q (
      Within-bind same_objects _ _
        (Within-attempt same_objects _
          (report_users-same m.meta.namespace m.meta.name (not_granted r m.meta.namespace)))
        (λ outcome.
          refused_with-same r
            (record m {
              status =
                  (failed_with o m reason_namespace_not_granted
                    (not_granted r m.meta.namespace).message).status;
            })
            outcome))

  config-same :
      (r : Reconciler) (m : Mosquitto) (e : Message)
      → namespace_granted r m.meta.namespace ≡ true
      → validate_spec_config m ≡ some e
      → Within same_objects (reconcile_broker o r m)
  unfolding reconcile_broker refuse_pass refuse_config act
  config-same r m e g q = rw (g, q) (persist_status-same _)

  judged-same :
      (r : Reconciler) (m : Mosquitto) (name : Bytes) (x : Option (Stored secret))
      (s : State Reader)
      → elim x [ none ↦ false | some obj ↦ consumable obj.content.labels ] ≡ false
      → let checked = judge_tls o m name (ok x) in
        same_objects.rel s.cluster
          (act o r (record m { status = checked.0.status }) checked.1 s).1.cluster
  unfolding judge_tls act
  judged-same r m name none s h = (persist_status-same _).at s
  judged-same r m name (some obj) s h = rw h ((persist_status-same _).at s)

  tls-same :
      (r : Reconciler) (m : Mosquitto) (s : State Reader)
      → namespace_granted r m.meta.namespace ≡ true
      → validate_spec_config m ≡ none
      → LacksTls r m s.cluster
      → same_objects.rel s.cluster (reconcile_broker o r m s).1.cluster
  unfolding reconcile_broker refuse_pass refuse_config refuse_tls_secret judge_tls act read
  tls-same r m s g v h =
      let key : Key = record { namespace = m.meta.namespace; name = tls_secret_of m.spec.tls } in
      rw (g, v, h.0, h.1)
        (elim (ask_cases o (Call.read secret key) (λ c. c.objects secret key) s) [
          | inl q ↦ rw q (
              judged-same (record r { secret_security = true }) m key.name
                (s.cluster.objects secret key) (traced o (Call.read secret key) s) h.2)
          | inr (e, q) ↦ rw q ((fail_pass-same m _).at (traced o (Call.read secret key) s))
        ])

  refused-same :
      (r : Reconciler) (m : Mosquitto) (s : State Reader)
      → IsRefused r m s.cluster
      → same_objects.rel s.cluster (reconcile_broker o r m s).1.cluster
  refused-same r m s h = elim (Bool-cases (namespace_granted r m.meta.namespace)) [
    | inr n ↦ (namespace-same r m n).at s
    | inl g ↦ elim (Option-cases (validate_spec_config m)) [
      | inr (e, v) ↦ (config-same r m e g v).at s
      | inl v ↦ elim h [
        | inl n ↦ (namespace-same r m n).at s
        | inr (inl (e, c)) ↦ (config-same r m e g c).at s
        | inr (inr t) ↦ tls-same r m s g v t
      ]
    ]
  ]

  found-same :
      (r : Reconciler) (m : Mosquitto) (deleted : Option ℕ) (s : State Reader)
      → IsRefused r m s.cluster
      → let pass : Pass o ⊤ = elim deleted [ none ↦ reconcile_broker o r m | some t ↦ pure tt ] in
        same_objects.rel s.cluster (pass s).1.cluster
  found-same r m none s h = refused-same r m s h
  found-same r m (some t) s h = refl

  -- A pass writes no object of the cluster where the namespace is not granted, where the configuration of the
  -- Mosquitto is refused, or where its TLS Secret has to consent and does not exist or does not, whatever calls
  -- fail.
  pub refused_pass_writes_no_object :
      (r : Reconciler) (key : Key) (m : Mosquitto) (s : State Reader)
      → s.cluster.brokers key ≡ some m
      → IsRefused r m s.cluster
      → (reconcile o r key s).1.cluster.objects ≡ s.cluster.objects
  unfolding reconcile reconcile_found fetch_broker
  refused_pass_writes_no_object r key m s found h =
      elim (ask_cases o (Call.fetch_broker key) (λ c. c.brokers key) s) [
        | inl q ↦ rw q (
            rw found
              (found-same r m m.meta.deletion_timestamp (traced o (Call.fetch_broker key) s) h))
        | inr (e, q) ↦ rw q refl
      ]
