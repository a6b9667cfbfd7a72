-- ===== src/Controller/Users/Verdicts.antt =====
-- internal/controller/users.go: the Secrets of a broker's users and what they are worth.
use mosquitto_operator.Base.{
  ℕ, Bool, false, ◌&&◌, Option, none, some, List, [], ◌∷◌, ◌++◌, Bytes, codes, ◌=?◌, ◌==◌,
  if◌then◌else◌,
}
use mosquitto_operator.Base.Base64.{encode}
use mosquitto_operator.Base.Dict.{Dict, get_or, insert, insert_all}
use mosquitto_operator.Base.Results.{Message, wrap}
use mosquitto_operator.Base.Strings.{replace_all, trim_right}
use mosquitto_operator.Api.{
  Mosquitto, MosquittoUser, MosquittoUserStatus, Condition, username_key, password_key,
}
use mosquitto_operator.Auth.Defs.{Input, Verdict, Principal, refused, exporter_principal}
use mosquitto_operator.Auth.Render.{RenderResult}
use mosquitto_operator.Builder.Pods.{exporter_password_key}
use mosquitto_operator.Controller.Cluster.{Key, secret, Stored, ◌=key◌}
use mosquitto_operator.Controller.Conditions.{condition_ready}
use mosquitto_operator.Controller.Exec.{Exec}
use mosquitto_operator.Controller.Objects.{is_controlled_by}

abbrev pub consumable_label : Bytes
consumable_label = codes "mko.gtrfc.com/consumable"

abbrev pub consumable_label_value : Bytes
consumable_label_value = codes "true"

abbrev pub reason_secret_not_found : Bytes
reason_secret_not_found = codes "SecretNotFound"

abbrev pub reason_secret_not_consumable : Bytes
reason_secret_not_consumable = codes "SecretNotConsumable"

abbrev pub reason_key_not_found : Bytes
reason_key_not_found = codes "KeyNotFound"

abbrev pub reason_broker_not_found : Bytes
reason_broker_not_found = codes "BrokerNotFound"

-- `userPass`
pub record UserPass : Type 0 where
  pub users : List MosquittoUser
  pub usernames : Dict Bytes
  pub verdicts : Dict Verdict
  pub accepted : ℕ
  pub files : Dict Bytes

-- `base64.RawURLEncoding`
unfoldable pub raw_url : Bytes → Bytes
raw_url s = trim_right (λ c. c == b'=') (replace_all (replace_all (encode s) b'+' b'-') b'/' b'_')

-- The users that an index lookup by the broker's name finds in a namespace.
unfoldable pub users_of : Bytes → Bytes → List MosquittoUser → List MosquittoUser
users_of namespace broker [] = []
users_of namespace broker (u ∷ us) =
    let rest = users_of namespace broker us in
    if u.meta.namespace =? namespace && u.spec.broker_ref =? broker then u ∷ rest else rest

abbrev pub key_of_user : MosquittoUser → Key
key_of_user u = record { namespace = u.meta.namespace; name = u.meta.name }

abbrev pub key_of_credentials : MosquittoUser → Key
key_of_credentials u = record {
  namespace = u.meta.namespace;
  name = u.spec.credentials_secret.name;
}

-- The status of one user replaced.
unfoldable pub put_status : Key → MosquittoUserStatus → List MosquittoUser → List MosquittoUser
put_status key status [] = []
put_status key status (u ∷ us) =
    (if key_of_user u =key key then record u { status = status } else u) ∷ put_status key status us

-- What reading a user's Secret gives: an input of the renderer, or the verdict that refuses the user.
pub data Credentials : Type 0 where
  credentials : Input → Credentials
  refusal : Verdict → Credentials

unfoldable pub secret_missing : MosquittoUser → Credentials
secret_missing u = refusal (
    refused reason_secret_not_found (codes "Secret %s does not exist in namespace %s")
      (u.spec.credentials_secret.name ∷ u.meta.namespace ∷ []))

unfoldable pub not_consumable : MosquittoUser → Credentials
not_consumable u = refusal (
    refused reason_secret_not_consumable
      (codes "Secret %s does not carry %s=%s, which --secret-security=true requires")
      (u.spec.credentials_secret.name ∷ consumable_label ∷ consumable_label_value ∷ []))

unfoldable pub key_missing : MosquittoUser → Bytes → Credentials
key_missing u key = refusal (
    refused reason_key_not_found (codes "Secret %s has no key %q")
      (u.spec.credentials_secret.name ∷ key ∷ []))

-- The label of consent is on the object.
unfoldable pub consumable : Dict Bytes → Bool
consumable labels = get_or consumable_label [] labels =? consumable_label_value

-- The two keys of the Secret, the username's first.
unfoldable pub credentials_in : MosquittoUser → Option Bytes → Option Bytes → Credentials
credentials_in u none password = key_missing u (username_key u)
credentials_in u (some username) none = key_missing u (password_key u)
credentials_in u (some username) (some password) = credentials (record {
  name = u.meta.name;
  creation_timestamp = u.meta.creation_timestamp;
  username = username;
  password = password;
  acls = u.spec.acls;
})

-- The status that `persistUserStatus` writes.
abbrev pub verdict_condition : (Message → Bytes) → MosquittoUser → Verdict → Condition
verdict_condition sprintf u verdict = record {
  kind = condition_ready;
  status = verdict.accepted;
  observed_generation = u.meta.generation;
  reason = verdict.reason;
  message = sprintf verdict.message;
}

-- `map[string]Verdict` reads as the zero verdict at a key that it does not hold.
abbrev pub no_verdict : Verdict
no_verdict = record { accepted = false; reason = []; message = record { format = []; args = [] } }

-- `Get` fails, and the error is wrapped.
abbrev pub reading : {A S : Type 0} → Message → Exec S A → Exec S A
reading m action s = let (r, s') = action s in (wrap m r, s')

-- What the loop of `renderUsers` has found out: the inputs in order, the user names, the refusals.
pub record Gathered : Type 0 where
  pub inputs : List Input
  pub usernames : Dict Bytes
  pub verdicts : Dict Verdict

unfoldable pub gathered : MosquittoUser → Credentials → Gathered → Gathered
gathered u (refusal verdict) g = record g { verdicts = insert u.meta.name verdict g.verdicts }
gathered u (credentials input) g = record g {
  inputs = g.inputs ++ input ∷ [];
  usernames = insert u.meta.name input.username g.usernames;
}

-- The files of a Secret that this Mosquitto controls.
unfoldable pub trusted : Mosquitto → Option (Stored secret) → Dict Bytes
trusted m none = []
trusted m (some obj) = if is_controlled_by obj m then obj.content.files else []

-- The exporter's principal, and its password beside the rendered files.
unfoldable pub reserved_of : Option Bytes → List Principal
reserved_of none = []
reserved_of (some password) = exporter_principal password ∷ []

unfoldable pub with_password : Option Bytes → Dict Bytes → Dict Bytes
with_password none files = files
with_password (some password) files =
    if password =? [] then files else insert exporter_password_key password files

-- The verdicts of the renderer are written over those of the loop.
unfoldable pub user_pass : List MosquittoUser → Gathered → Option Bytes → RenderResult → UserPass
user_pass users g password res = record {
  users = users;
  usernames = g.usernames;
  verdicts = insert_all res.verdicts g.verdicts;
  accepted = res.accepted;
  files = with_password password res.content;
}
