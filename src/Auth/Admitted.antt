-- ===== src/Auth/Admitted.antt =====
-- What `check` makes sure of: an input that is not refused is safe to write into the two files.
use mosquitto_operator.Base.{
  ℕ, ◌+◌, ◌≤◌, ◌<◌, ◌≡◌, ◌≢◌, refl, ap, ◌⊎◌, true, false, none, List, [], ◌∷◌, ◌++◌, arith, Bytes,
  codes, All, length, bytes_discrete,
}
use mosquitto_operator.Base.Ascii.{All-runes}
use mosquitto_operator.Base.Runes.{Rune, runes}
use mosquitto_operator.Base.Strings.{has_prefix, contains, split, to_lower, Lacks}
use mosquitto_operator.Api.{MosquittoAcl, access_read, access_write, access_read_write}
use mosquitto_operator.Auth.Defs.{
  Input, check, reserved_prefix, is_alnum, is_username_byte, all_username_bytes,
  matches_username_pattern, is_control, has_control, level_problem, topic_problem, known_access,
  acl_refusal,
}

abbrev pub IsUsernameByte : ℕ → Type 0
IsUsernameByte c = is_username_byte c ≡ true

-- 1 to 128 bytes of `[A-Za-z0-9._@-]`, the first a letter or a digit.
abbrev pub IsUsername : Bytes → Type 0
IsUsername [] = ⊥
IsUsername (c ∷ s) = (is_alnum c ≡ true) × All IsUsernameByte s × (length s < 128)

-- Every level is free of wildcards, a `+`, or a `#` at the end.
abbrev pub IsFilter : List Bytes → Type 0
IsFilter [] = Unit
IsFilter (level ∷ levels) =
    ((Lacks b'#' level) ⊎ ((level ≡ codes "#") × (levels ≡ [])))
    × ((Lacks b'+' level) ⊎ (level ≡ codes "+"))
    × IsFilter levels

pub record IsTopic (topic : Bytes) : Type 0 where
  pub some_text : topic ≢ []
  pub not_system : (rest : Bytes) → topic ≢ b'$' ∷ rest
  pub one_line : All (λ b. is_control b ≡ false) topic
  pub filter : IsFilter (split topic b'/')

abbrev pub IsAccess : Bytes → Type 0
IsAccess a = (a ≡ access_read) ⊎ (a ≡ access_write) ⊎ (a ≡ access_read_write)

abbrev pub IsAcl : MosquittoAcl → Type 0
IsAcl a = IsTopic a.topic × IsAccess a.access

pub record IsAdmissible (i : Input) : Type 0 where
  pub username : IsUsername i.username
  pub unreserved : (rest : Bytes) → to_lower i.username ≢ reserved_prefix ++ rest
  pub password : i.password ≢ []
  pub acls : All IsAcl i.acls

All-username_bytes : (s : Bytes) → all_username_bytes s ≡ true → All IsUsernameByte s
unfolding all_username_bytes
All-username_bytes [] h = tt
All-username_bytes (c ∷ s) h = ground (arith, All-username_bytes s)

IsUsername-match : (s : Bytes) → matches_username_pattern s ≡ true → IsUsername s
unfolding matches_username_pattern
IsUsername-match [] h = cc
IsUsername-match (c ∷ s) h = ground (arith, All-username_bytes s)

Lacks-contains : (c : ℕ) (s : Bytes) → contains s c ≡ false → Lacks c s
unfolding contains
Lacks-contains c [] h = tt
Lacks-contains c (b ∷ s) h = ground (arith, Lacks-contains c s)

has_control-All :
    (rs : List Rune) → has_control rs ≡ false → All (λ (r : Rune). is_control r.code ≡ false) rs
unfolding has_control
has_control-All [] h = tt
has_control-All (r ∷ rs) h = ground (arith, has_control-All rs)

high_no_control : (b : ℕ) → 0x80 ≤ b → is_control b ≡ false
unfolding is_control
high_no_control b h = ground arith

bytes_no_control : (s : Bytes) → has_control (runes s) ≡ false → All (λ b. is_control b ≡ false) s
bytes_no_control s h =
    All-runes (λ b. is_control b ≡ false) high_no_control s (has_control-All (runes s) h)

length-zero : {A : Type 0} (xs : List A) → length xs ≡ 0 → xs ≡ []
length-zero [] h = refl
length-zero (x ∷ xs) h = absurd (omega arith)

IsFilter-levels :
    (i n : ℕ) (levels : List Bytes)
    → i + length levels ≡ n
    → level_problem i n levels ≡ []
    → IsFilter levels
unfolding level_problem bytes_discrete
IsFilter-levels i n [] e h = tt
IsFilter-levels i n (level ∷ levels) e h = ground (
  arith,
  Lacks-contains b'#' level,
  Lacks-contains b'+' level,
  length-zero levels,
  IsFilter-levels (i + 1) n levels,
)

has_prefix-dollar : (s rest : Bytes) → has_prefix s (codes "$") ≡ false → s ≢ b'$' ∷ rest
unfolding has_prefix
has_prefix-dollar [] rest h = cc
has_prefix-dollar (c ∷ s) rest h = ground arith

has_prefix-append : (p rest : Bytes) → has_prefix (p ++ rest) p ≡ true
unfolding has_prefix
has_prefix-append [] rest = refl
has_prefix-append (c ∷ p) rest = ground (arith, has_prefix-append p rest)

topic_facts :
    (topic : Bytes)
    → topic_problem topic ≡ []
    → (topic ≢ [])
      × (has_prefix topic (codes "$") ≡ false)
      × (has_control (runes topic) ≡ false)
      × (level_problem 0 (length (split topic b'/')) (split topic b'/') ≡ [])
unfolding topic_problem
topic_facts topic h = ground arith

check_facts :
    (i : Input)
    → check i ≡ none
    → (matches_username_pattern i.username ≡ true)
      × (has_prefix (to_lower i.username) reserved_prefix ≡ false)
      × (i.password ≢ [])
      × (acl_refusal i.acls ≡ none)
unfolding check
check_facts i h = ground arith

-- A topic filter in which `topicProblem` finds nothing.
pub topic_problem-IsTopic : (topic : Bytes) → topic_problem topic ≡ [] → IsTopic topic
topic_problem-IsTopic topic h =
    let (text, system, control, levels) = topic_facts topic h in
    record {
      some_text = text;
      not_system = λ rest. has_prefix-dollar topic rest system;
      one_line = bytes_no_control topic control;
      filter =
          IsFilter-levels 0 (length (split topic b'/')) (split topic b'/') (omega arith) levels;
    }

acl_refusal-IsAcl : (acls : List MosquittoAcl) → acl_refusal acls ≡ none → All IsAcl acls
unfolding acl_refusal known_access
acl_refusal-IsAcl [] h = tt
acl_refusal-IsAcl (a ∷ acls) h =
    ground (arith, topic_problem-IsTopic a.topic, acl_refusal-IsAcl acls)

-- An input that `check` does not refuse has a user name of the allowed form that is not reserved
-- in any spelling, a password, and only ACL entries with a known access and a topic filter that is
-- not empty, does not begin with `$`, holds no control character and has its wildcards in place.
pub check-IsAdmissible : (i : Input) → check i ≡ none → IsAdmissible i
check-IsAdmissible i h =
    let (name, own, password, acls) = check_facts i h in
    record {
      username = IsUsername-match i.username name;
      unreserved = λ rest e. ground (
        arith,
        has_prefix-append reserved_prefix rest,
        ap (λ (s : Bytes). has_prefix s reserved_prefix) e,
      );
      password = password;
      acls = acl_refusal-IsAcl i.acls acls;
    }
