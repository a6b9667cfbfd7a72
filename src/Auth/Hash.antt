-- ===== src/Auth/Hash.antt =====
-- internal/auth/hash.go: the $7$ hashes of the password-file plugin. The key derivation and the
-- source of salts are parameters.
use mosquitto_operator.Base.{
  ℕ, suc, ◌≡◌, Bool, false, Option, none, some, List, [], ◌∷◌, ◌++◌, Bytes, IsByte, All, codes,
  ◌=?◌, length, if◌then◌else◌,
}
use mosquitto_operator.Base.Base64.{encode, decode}
use mosquitto_operator.Base.Decimal.{ℤ, pos, atoi}
use mosquitto_operator.Base.Results.{Result, ok, err, Message, wrap, ◌>>=◌}
use mosquitto_operator.Base.Strings.{has_prefix, trim_prefix, split}

abbrev pub hash_iterations : ℕ
hash_iterations = 1000

abbrev pub salt_length : ℕ
salt_length = 64

abbrev pub key_length : ℕ
key_length = 64

abbrev pub hash_prefix : Bytes
hash_prefix = codes "$7$"

-- Go's `io.Reader` of salts and `pbkdf2.Key` with SHA-512. `io.ReadFull` gives as many bytes as
-- were asked for, and a derived key has the length asked for.
pub record Crypto : Type 1 where
  pub Reader : Type 0
  pub read_full : ℕ → Reader → Result (Bytes × Reader)
  pub read_full_length :
      (n : ℕ) (r r' : Reader) (s : Bytes) → read_full n r ≡ ok (s, r') → length s ≡ n
  pub read_full_bytes :
      (n : ℕ) (r r' : Reader) (s : Bytes) → read_full n r ≡ ok (s, r') → All IsByte s
  pub pbkdf2_key : Bytes → Bytes → ℕ → ℕ → Result Bytes
  pub pbkdf2_key_length :
      (password salt : Bytes) (iterations n : ℕ) (key : Bytes)
      → pbkdf2_key password salt iterations n ≡ ok key
      → length key ≡ n
  pub pbkdf2_key_bytes :
      (password salt : Bytes) (iterations n : ℕ) (key : Bytes)
      → pbkdf2_key password salt iterations n ≡ ok key
      → All IsByte key

abbrev message : Bytes → Message
message format = record { format = format; args = [] }

abbrev pub format_hash : Bytes → Bytes → Bytes
format_hash salt key = hash_prefix ++ (codes "1000" ++ b'$' ∷ (encode salt ++ b'$' ∷ encode key))

-- The count, the salt and the key of a hash; `none` is `errMalformedHash`.
pub record ParsedHash : Type 0 where
  pub iterations : ℕ
  pub salt : Bytes
  pub key : Bytes

unfoldable pub parse_fields : Option ℤ → Option Bytes → Option Bytes → Option ParsedHash
parse_fields (some (pos (suc n))) (some (s ∷ salt)) (some (k ∷ key)) =
    some (record { iterations = suc n; salt = s ∷ salt; key = k ∷ key })
parse_fields _ _ _ = none

unfoldable pub parse_parts : List Bytes → Option ParsedHash
unfolding parse_fields
parse_parts (iterations ∷ salt ∷ key ∷ []) =
    parse_fields (atoi iterations) (decode salt) (decode key)
parse_parts _ = none

unfoldable pub parse_hash : Bytes → Option ParsedHash
unfolding parse_parts
parse_hash encoded =
    if has_prefix encoded hash_prefix
    then parse_parts (split (trim_prefix encoded hash_prefix) b'$')
    else none

module _ (c : Crypto) where
  open c use {Reader, read_full, pbkdf2_key}

  unfoldable pub hash_password : Bytes → Reader → Result (Bytes × Reader)
  hash_password password random = do
    (salt, rest) ← wrap (message (codes "reading a salt: %w")) (read_full salt_length random)
    key ←
        wrap (message (codes "deriving the key: %w"))
          (pbkdf2_key password salt hash_iterations key_length)
    ok (format_hash salt key, rest)

  -- A comparison of keys that takes the same time whatever they hold is equality.
  unfoldable pub key_matches : Result Bytes → Bytes → Bool
  key_matches (ok derived) key = derived =? key
  key_matches (err e) key = false

  unfoldable pub verify_parsed : Option ParsedHash → Bytes → Bool
  unfolding key_matches
  verify_parsed none password = false
  verify_parsed (some h) password =
      key_matches (pbkdf2_key password h.salt h.iterations (length h.key)) h.key

  unfoldable pub verify_password : Bytes → Bytes → Bool
  unfolding verify_parsed
  verify_password encoded password = verify_parsed (parse_hash encoded) password

  -- `keepOrHash`, of render.go
  unfoldable pub keep_or_hash : Bytes → Bytes → Reader → Result (Bytes × Reader)
  keep_or_hash previous password random =
      if previous =? []
      then hash_password password random
      else if verify_password previous password
      then ok (previous, random)
      else hash_password password random
