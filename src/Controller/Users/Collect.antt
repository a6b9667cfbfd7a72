-- ===== src/Controller/Users/Collect.antt =====
-- internal/controller/users.go: the steps of a pass that collect the users and report on them.
use mosquitto_operator.Base.{
  not, ◌&&◌, Option, none, some, List, [], ◌∷◌, Bytes, codes, ◌=?◌, if◌then◌else◌,
}
use mosquitto_operator.Base.Dict.{Dict, lookup, get_or}
use mosquitto_operator.Base.Results.{Result, ok, err, wrapped, Message}
use mosquitto_operator.Api.{
  Mosquitto, MosquittoUser, MosquittoUserStatus, username_key, password_key, is_metrics_enabled,
}
use mosquitto_operator.Labels.{auth_secret_name}
use mosquitto_operator.Auth.Defs.{Input, Verdict, Principal, refused}
use mosquitto_operator.Auth.Render.{RenderResult, file_payload, render}
use mosquitto_operator.Builder.Pods.{exporter_password_key}
use mosquitto_operator.Controller.Cluster.{Key, secret, Stored, Call}
use mosquitto_operator.Controller.Conditions.{user_status_unchanged}
use mosquitto_operator.Controller.Exec.{⊤, Outside, pure, ◌>>=◌, for_each, State, Pass, ask, tell}
use mosquitto_operator.Controller.Objects.{Reconciler, message, fetch, read}
use mosquitto_operator.Controller.Users.Verdicts.{
  reason_broker_not_found, UserPass, raw_url, users_of, key_of_user, key_of_credentials, put_status,
  Credentials, secret_missing, not_consumable, consumable, credentials_in, verdict_condition,
  no_verdict, reading, Gathered, gathered, trusted, reserved_of, user_pass,
}

module _ (o : Outside) where
  open o use {crypto, sprintf, conditions}
  open crypto use {Reader, read_full}

  unfoldable pub list_users : Bytes → Bytes → Pass o (List MosquittoUser)
  list_users namespace broker =
      reading (message (codes "listing the MosquittoUsers of %s/%s: %w") (namespace ∷ broker ∷ []))
        (ask o (Call.list_users namespace broker) (λ c. users_of namespace broker c.users))

  -- A read of random bytes: the source moves on.
  after_random : State Reader → Result (Bytes × Reader) → Result Bytes × State Reader
  after_random s (ok (raw, rest)) = (ok (raw_url raw), record s { random = rest })
  after_random s (err e) =
      (err (wrapped (message (codes "generating the exporter password: %w") []) e), s)

  unfoldable pub exporter_password : Dict Bytes → Pass o Bytes
  unfolding after_random
  exporter_password previous s =
      let kept = get_or exporter_password_key [] previous in
      if kept =? [] then after_random s (read_full 32 s.random) else (ok kept, s)

  credentials_of : MosquittoUser → Option (Stored secret) → Credentials
  credentials_of u none = secret_missing u
  credentials_of u (some obj) =
      credentials_in u (lookup (username_key u) obj.content.files)
        (lookup (password_key u) obj.content.files)

  reading_secret : MosquittoUser → Message
  reading_secret u =
      message (codes "reading Secret %s of MosquittoUser %s: %w")
        (u.spec.credentials_secret.name ∷ u.meta.name ∷ [])

  read_data : MosquittoUser → Pass o Credentials
  unfolding credentials_of reading_secret
  read_data u = do
    found ← reading (reading_secret u) (read o secret (key_of_credentials u))
    pure (credentials_of u found)

  -- What follows on the metadata from the cache.
  unfoldable pub with_metadata :
      Reconciler → MosquittoUser → Option (Stored secret) → Pass o Credentials
  unfolding read_data
  with_metadata r u none = pure (secret_missing u)
  with_metadata r u (some metadata) =
      if r.secret_security && not (consumable metadata.content.labels)
      then pure (not_consumable u)
      else read_data u

  unfoldable pub read_credentials : Reconciler → MosquittoUser → Pass o Credentials
  unfolding reading_secret
  read_credentials r u = do
    metadata ← reading (reading_secret u) (fetch o secret (key_of_credentials u))
    with_metadata r u metadata

  unfoldable pub gather : Reconciler → List MosquittoUser → Gathered → Pass o Gathered
  gather r [] g = pure g
  gather r (u ∷ us) g = do c ← read_credentials r u; gather r us (gathered u c g)

  auth_secret_key : Mosquitto → Key
  auth_secret_key m = record { namespace = m.meta.namespace; name = auth_secret_name m }

  unfoldable pub current_auth_data : Mosquitto → Pass o (Dict Bytes)
  unfolding auth_secret_key
  current_auth_data m = do
    current ←
        reading (message (codes "reading Secret %s: %w") (auth_secret_name m ∷ []))
          (read o secret (auth_secret_key m))
    pure (trusted m current)

  unfoldable pub metrics_password : Mosquitto → Dict Bytes → Pass o (Option Bytes)
  metrics_password m previous =
      if is_metrics_enabled m
      then (do password ← exporter_password previous; pure (some password))
      else pure none

  unfoldable pub after_render :
      State Reader → Result (RenderResult × Reader) → Result RenderResult × State Reader
  after_render s (ok (res, rest)) = (ok res, record s { random = rest })
  after_render s (err e) = (err e, s)

  -- `auth.Render`. Where it fails, what it read of the source is not taken from it.
  unfoldable pub render_inputs : List Input → List Principal → Dict Bytes → Pass o RenderResult
  unfolding after_render
  render_inputs inputs reserved previous s =
      after_render s (render crypto file_payload inputs reserved previous s.random)

  unfoldable pub render_users : Reconciler → Mosquitto → Pass o UserPass
  render_users r m = do
    users ← list_users m.meta.namespace m.meta.name
    g ← gather r users (record { inputs = []; usernames = []; verdicts = [] })
    previous ← current_auth_data m
    password ← metrics_password m previous
    res ← render_inputs g.inputs (reserved_of password) previous
    pure (user_pass users g password res)

  unfoldable pub verdict_status : MosquittoUser → Bytes → Verdict → MosquittoUserStatus
  verdict_status u username verdict = record {
    observed_generation = u.meta.generation;
    username = username;
    conditions = conditions.set u.status.conditions (verdict_condition sprintf u verdict);
  }

  unfoldable pub update_user : MosquittoUser → MosquittoUserStatus → Pass o ⊤
  update_user u status =
      reading (message (codes "writing the status of MosquittoUser %s: %w") (u.meta.name ∷ [])) (
        tell o (Call.update_user (key_of_user u))
          (λ c. record c { users = put_status (key_of_user u) status c.users }))

  unfoldable pub persist_user_status : MosquittoUser → Bytes → Verdict → Pass o ⊤
  persist_user_status u username verdict =
      if user_status_unchanged (verdict_status u username verdict) u.status
      then pure tt
      else update_user u (verdict_status u username verdict)

  unfoldable pub write_user_statuses : UserPass → Pass o ⊤
  write_user_statuses pass =
      for_each
        (λ u.
          persist_user_status u (get_or u.meta.name [] pass.usernames)
            (get_or u.meta.name no_verdict pass.verdicts))
        pass.users

  unfoldable pub report_users : Bytes → Bytes → Verdict → Pass o ⊤
  report_users namespace broker verdict = do
    users ← list_users namespace broker
    for_each (λ (u : MosquittoUser). persist_user_status u u.status.username verdict) users

  unfoldable pub report_users_of_missing_broker : Key → Pass o ⊤
  report_users_of_missing_broker key = report_users key.namespace key.name (
      refused reason_broker_not_found (codes "Mosquitto %s does not exist in namespace %s")
        (key.name ∷ key.namespace ∷ []))
