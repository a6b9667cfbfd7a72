-- ===== src/Auth/Defs.antt =====
-- internal/auth/render.go and files.go: the types, the reasons of a verdict, and the checks that
-- one user passes before it is rendered.
use mosquitto_operator.Base.{
  ℕ, ◌+◌, ◌-◌, Bool, true, false, not, Option, none, some, List, [], ◌∷◌, ◌&&◌, ◌||◌, Bytes, codes,
  ◌==◌, ◌=?◌, ltb, leb, length, if◌then◌else◌,
}
use mosquitto_operator.Base.Results.{Message}
use mosquitto_operator.Base.Runes.{Rune, runes, valid_string, trim_space}
use mosquitto_operator.Base.Strings.{has_prefix, contains, split, to_lower}
use mosquitto_operator.Api.{MosquittoAcl, access_read, access_write, access_read_write}

abbrev pub reserved_prefix : Bytes
reserved_prefix = codes "mko-"

abbrev pub exporter_username : Bytes
exporter_username = codes "mko-exporter"

-- A user that the operator renders for itself.
pub record Principal : Type 0 where
  pub username : Bytes
  pub password : Bytes
  pub acls : List MosquittoAcl

unfoldable pub exporter_principal : Bytes → Principal
exporter_principal password = record {
  username = exporter_username;
  password = password;
  acls = record { topic = codes "$SYS/#"; access = access_read } ∷ [];
}

-- One MosquittoUser as the renderer sees it. A time is a count from some fixed instant.
pub record Input : Type 0 where
  pub name : Bytes
  pub creation_timestamp : ℕ
  pub username : Bytes
  pub password : Bytes
  pub acls : List MosquittoAcl

pub record Accepted : Type 0 where
  pub username : Bytes
  pub hash : Bytes
  pub acls : List MosquittoAcl

pub record Verdict : Type 0 where
  pub accepted : Bool
  pub reason : Bytes
  pub message : Message

abbrev pub reason_user_accepted : Bytes
reason_user_accepted = codes "Accepted"

abbrev pub reason_password_empty : Bytes
reason_password_empty = codes "PasswordEmpty"

abbrev pub reason_username_invalid : Bytes
reason_username_invalid = codes "UsernameInvalid"

abbrev pub reason_username_reserved : Bytes
reason_username_reserved = codes "UsernameReserved"

abbrev pub reason_username_conflict : Bytes
reason_username_conflict = codes "UsernameConflict"

abbrev pub reason_topic_refused : Bytes
reason_topic_refused = codes "TopicRefused"

-- A refusal: its text is kept as the format and the arguments of `Sprintf`.
abbrev pub refused : Bytes → Bytes → List Bytes → Verdict
refused reason format args = record {
  accepted = false;
  reason = reason;
  message = record { format = format; args = args };
}

unfoldable pub is_alnum : ℕ → Bool
is_alnum c = leb b'A' c && leb c b'Z' || leb b'a' c && leb c b'z' || leb b'0' c && leb c b'9'

unfoldable pub is_username_byte : ℕ → Bool
unfolding is_alnum
is_username_byte c = is_alnum c || c == b'.' || c == b'_' || c == b'@' || c == b'-'

unfoldable pub all_username_bytes : Bytes → Bool
unfolding is_username_byte
all_username_bytes [] = true
all_username_bytes (c ∷ s) = is_username_byte c && all_username_bytes s

-- `^[A-Za-z0-9][A-Za-z0-9._@-]{0,127}$`
unfoldable pub matches_username_pattern : Bytes → Bool
unfolding all_username_bytes
matches_username_pattern [] = false
matches_username_pattern (c ∷ s) = is_alnum c && (all_username_bytes s && leb (length s) 127)

abbrev pub username_pattern : Bytes
username_pattern = codes "^[A-Za-z0-9][A-Za-z0-9._@-]{0,127}$"

unfoldable pub is_control : ℕ → Bool
is_control r = ltb r 0x20 || r == 0x7F

unfoldable pub has_control : List Rune → Bool
unfolding is_control
has_control [] = false
has_control (r ∷ rs) = if is_control r.code then true else has_control rs

-- The loop over the levels of a topic filter: level number `i` of `n`.
unfoldable pub level_problem : ℕ → ℕ → List Bytes → Bytes
level_problem i n [] = []
level_problem i n (level ∷ levels) =
    if contains level b'#' && (not (level =? codes "#") || not (i == n - 1))
    then codes "# must be a whole level and the last one"
    else if contains level b'+' && not (level =? codes "+")
    then codes "+ must be a whole level"
    else level_problem (i + 1) n levels

unfoldable pub topic_problem : Bytes → Bytes
topic_problem topic =
    if topic =? []
    then codes "it is empty"
    else if has_prefix topic (codes "$")
    then codes "a topic starting with $ is reserved for the broker and the operator"
    else if not (valid_string topic)
    then codes "it is not valid UTF-8"
    else if has_control (runes topic)
    then codes "it contains a control character"
    else if not (trim_space topic =? topic)
    then codes "it starts or ends with whitespace"
    else (let levels = split topic b'/' in level_problem 0 (length levels) levels)

unfoldable pub known_access : Bytes → Bool
known_access access = access =? access_read || access =? access_write || access =? access_read_write

-- The loop of `check` over the ACL entries: the first refusal.
unfoldable pub acl_refusal : List MosquittoAcl → Option Verdict
unfolding known_access
acl_refusal [] = none
acl_refusal (acl ∷ acls) =
    let problem = topic_problem acl.topic in
    if not (problem =? [])
    then some (
        refused reason_topic_refused (codes "ACL topic %q is refused: %s")
          (acl.topic ∷ problem ∷ []))
    else if not (known_access acl.access)
    then some (
        refused reason_topic_refused
          (codes "ACL topic %q has access %q, which is not read, write or readwrite")
          (acl.topic ∷ acl.access ∷ []))
    else acl_refusal acls

-- `check`: the verdict of an input that is refused, and `none` for one that is not. A name that
-- reaches `to_lower` is ASCII.
unfoldable pub check : Input → Option Verdict
check input =
    if not (matches_username_pattern input.username)
    then some (
        refused reason_username_invalid (codes "username %q is not allowed: it must match %s")
          (input.username ∷ username_pattern ∷ []))
    else if has_prefix (to_lower input.username) reserved_prefix
    then some (
        refused reason_username_reserved
          (codes
            "username %q is reserved: the prefix %s belongs to principals the operator renders itself")
          (input.username ∷ reserved_prefix ∷ []))
    else if input.password =? []
    then some (refused reason_password_empty (codes "the password is empty") [])
    else acl_refusal input.acls
