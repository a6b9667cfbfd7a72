-- ===== src/Controller/Ordered.antt =====
-- The order of the writes of reconcileResources: the Secret and the statuses of the users.
use mosquitto_operator.Base.{ℕ, ◌≡◌, refl, ◌∙◌, ◌⊎◌, inl, inr, [], Bytes}
use mosquitto_operator.Base.Dict.{Dict, get_or}
use mosquitto_operator.Base.Results.{Result, ok, err}
use mosquitto_operator.Api.{Mosquitto}
use mosquitto_operator.Builder.Services.{
  build_auth_secret, build_config_map, build_headless_service, build_client_service,
}
use mosquitto_operator.Controller.Cluster.{
  Key, Kind, config_map, service, stateful_set, secret, Content, Stored, Cluster, Call, put,
}
use mosquitto_operator.Controller.Conditions.{user_status_unchanged}
use mosquitto_operator.Controller.Exec.{⊤, Outside, pure, ◌>>=◌, after, State, Pass, ask}
use mosquitto_operator.Controller.Foreign.Reads.{render_users-Within}
use mosquitto_operator.Controller.Objects.{
  Reconciler, ensure, key_of, fetch, read, reconcile_config_map, reconcile_service,
  reconcile_stateful_set, reconcile_auth_secret,
}
use mosquitto_operator.Controller.Held.{HoldsFiles, reconciled-HoldsFiles}
use mosquitto_operator.Controller.Passes.{reconcile_resources}
use mosquitto_operator.Controller.Users.{
  render_users, UserPass, no_verdict, persist_user_status, update_user, verdict_status,
  write_user_statuses,
}
use mosquitto_operator.Controller.Writes.{ensure-Within}
use mosquitto_operator.Controller.Within.{
  Change, Within, Within-pure, Within-lift, Within-bind, Within-if, Within-reading, Within-for_each,
  tell-rel,
}

-- The users as they were, with their statuses.
abbrev same_users : Change
same_users = record { rel = λ a b. b.users ≡ a.users; stay = λ c. refl; then_ = λ a b c h g. g ∙ h }

-- The Secrets as they were.
abbrev same_secrets : Change
same_secrets = record {
  rel = λ a b. b.objects secret ≡ a.objects secret;
  stay = λ c. refl;
  then_ = λ a b c h g. g ∙ h;
}

abbrev IsNotSecret : Kind → Type 0
IsNotSecret config_map = Unit
IsNotSecret service = Unit
IsNotSecret stateful_set = Unit
IsNotSecret secret = ⊥

put-secrets :
    (k : Kind) (key : Key) (obj : Stored k) (c : Cluster)
    → IsNotSecret k
    → put k key obj c.objects secret ≡ c.objects secret
unfolding put
put-secrets config_map key obj c h = refl
put-secrets service key obj c h = refl
put-secrets stateful_set key obj c h = refl
put-secrets secret key obj c h = absurd h

module _ (o : Outside) where
  open o use {owner_fault, crypto}
  open crypto use {Reader}

  secrets-Within :
      (k : Kind) (call : Key → Call) (m : Mosquitto) (desired : Content k)
      → IsNotSecret k
      → Within same_secrets (ensure o k (λ key. ask o (call key) (λ c. c.objects k key)) m desired)
  secrets-Within k call m desired h =
      ensure-Within o same_secrets k desired (λ obj c. put-secrets k (key_of k desired) obj c h)
        call m

  write_user_statuses-secrets : (pass : UserPass) → Within same_secrets (write_user_statuses o pass)
  unfolding write_user_statuses persist_user_status update_user
  write_user_statuses-secrets pass = Within-for_each same_secrets _ pass.users (λ u.
      Within-if same_secrets
        (user_status_unchanged
          (verdict_status o u (get_or u.meta.name [] pass.usernames)
            (get_or u.meta.name no_verdict pass.verdicts))
          u.status)
        _ _ (Within-pure same_secrets tt)
        (Within-reading same_secrets _ _ (record { at = λ s. tell-rel o same_secrets _ _ s refl })))

  -- What follows on the Secret in a pass.
  abbrev pub after_secret : Reconciler → Mosquitto → UserPass → Pass o ℕ
  after_secret r m pass = write_user_statuses o pass >>= λ _. reconcile_config_map o m >>= λ _.
      reconcile_service o m (build_headless_service m) >>= λ _.
      reconcile_service o m (build_client_service m) >>= λ _.
      reconcile_stateful_set o r m >>= λ _. pure pass.accepted

  pub after_secret-secrets :
      (r : Reconciler) (m : Mosquitto) (pass : UserPass)
      → Within same_secrets (after_secret r m pass)
  unfolding reconcile_config_map reconcile_service reconcile_stateful_set fetch
  after_secret-secrets r m pass =
      let w : Change = same_secrets in
      Within-bind w _ _ (write_user_statuses-secrets pass) (λ _.
        Within-bind w _ _
          (secrets-Within config_map (Call.fetch config_map) m (build_config_map m) tt)
          (λ _.
            Within-bind w _ _
              (secrets-Within service (Call.fetch service) m (build_headless_service m) tt)
              (λ _.
                Within-bind w _ _
                  (secrets-Within service (Call.fetch service) m (build_client_service m) tt)
                  (λ _.
                    Within-bind w _ _
                      (Within-bind w _ _ (Within-lift w _) (λ desired.
                        secrets-Within stateful_set (Call.fetch stateful_set) m desired tt))
                      (λ _. Within-pure w pass.accepted)))))

  pub same-HoldsFiles :
      (m : Mosquitto) (files : Dict Bytes) (a b : Cluster)
      → b.objects secret ≡ a.objects secret
      → HoldsFiles m files a
      → HoldsFiles m files b
  same-HoldsFiles m files a b e h = record {
    live = h.live;
    is_stored = rw e h.is_stored;
    is_owned = h.is_owned;
    has_files = h.has_files;
  }

  reconcile_auth_secret-users :
      (m : Mosquitto) (files : Dict Bytes) → Within same_users (reconcile_auth_secret o m files)
  unfolding reconcile_auth_secret read
  reconcile_auth_secret-users m files =
      ensure-Within o same_users secret (build_auth_secret m files) (λ obj c. refl)
        (Call.read secret) m

  module _ (r : Reconciler) (m : Mosquitto) (users : Cluster → Type 0) where
    -- The users are as they were, or the Secret has the files of this pass.
    abbrev Ordered : UserPass → Cluster → Type 0
    Ordered pass c = users c ⊎ HoldsFiles m pass.files c

    after_files :
        (pass : UserPass) (x : Result ⊤) (s : State Reader)
        → users s.cluster
        → (x ≡ ok tt → HoldsFiles m pass.files s.cluster)
        → Ordered pass (after (x, s) (λ _. after_secret r m pass)).1.cluster
    after_files pass (err e) s h k = inl h
    after_files pass (ok _) s h k =
        inr
          (same-HoldsFiles m pass.files s.cluster _ ((after_secret-secrets r m pass).at s) (k refl))

  after_render-Ordered :
      (r : Reconciler) (m : Mosquitto) (c : Cluster) (x : Result UserPass) (s : State Reader)
      → s.cluster.users ≡ c.users
      → let done =
          (after
            (x, s)
            (λ pass.
              reconcile_auth_secret o m pass.files >>= λ _. after_secret r m pass)).1.cluster in
        (done.users ≡ c.users) ⊎ ((pass : UserPass) × (x ≡ ok pass) × HoldsFiles m pass.files done)
  after_render-Ordered r m c (err e) s h = inl h
  after_render-Ordered r m c (ok pass) s h =
      elim (after_files r m (λ d. d.users ≡ c.users) pass (reconcile_auth_secret o m pass.files s).0
        (reconcile_auth_secret o m pass.files s).1
        ((reconcile_auth_secret-users m pass.files).at s ∙ h)
        (reconciled-HoldsFiles o m pass.files s)) [ inl q ↦ inl q | inr q ↦ inr (pass, refl, q) ]

  -- Where `reconcileResources` changes the status of a user, the broker's Secret has the rendered files at its end, whatever
  -- calls fail: it leaves every user as it was, or what it rendered is what the Secret holds.
  pub users_wait_for_secret :
      (r : Reconciler) (m : Mosquitto) (s : State Reader)
      → ((reconcile_resources o r m s).1.cluster.users ≡ s.cluster.users)
        ⊎ ((pass : UserPass) × ((render_users o r m s).0 ≡ ok pass)
            × HoldsFiles m pass.files (reconcile_resources o r m s).1.cluster)
  unfolding reconcile_resources
  users_wait_for_secret r m s =
      after_render-Ordered r m s.cluster (render_users o r m s).0 (render_users o r m s).1
        ((render_users-Within o same_users r m).at s)
