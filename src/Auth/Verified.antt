-- ===== src/Auth/Verified.antt =====
-- A hash that the operator writes verifies the password that it was made of, and nothing that
-- `VerifyPassword` reads is kept for another password's sake.
use mosquitto_operator.Base.{
  ◌≡◌, refl, true, false, some, [], ◌∷◌, ◌++◌, arith, Bytes, IsByte, All, codes, length, All-append,
  =?_refl, inl, inr,
}
use mosquitto_operator.Base.Base64.{encode, decode-encode, encode-IsPlain, IsPlain}
use mosquitto_operator.Base.Decimal.{pos, atoi}
use mosquitto_operator.Base.Results.{ok, Result-cases}
use mosquitto_operator.Base.Strings.{
  has_prefix, trim_prefix, split, split-append, split_of_Lacks, Lacks,
}
use mosquitto_operator.Auth.Hash.{
  Crypto, format_hash, hash_prefix, parse_hash, parse_parts, parse_fields, hash_password,
  verify_password, verify_parsed, key_matches, keep_or_hash, hash_iterations, key_length,
}

plain-Lacks : (s : Bytes) → All IsPlain s → Lacks b'$' s
plain-Lacks [] h = tt
plain-Lacks (c ∷ s) h = (h.0.2, plain-Lacks s h.1)

encode-Lacks : (s : Bytes) → All IsByte s → Lacks b'$' (encode s)
encode-Lacks s h = plain-Lacks (encode s) (encode-IsPlain s h)

split_fields :
    (salt key : Bytes)
    → All IsByte salt
    → All IsByte key
    → split (codes "1000" ++ b'$' ∷ (encode salt ++ b'$' ∷ encode key)) b'$'
      ≡ codes "1000" ∷ encode salt ∷ encode key ∷ []
split_fields salt key hs hk = cc (
  split-append b'$' (codes "1000") (encode salt ++ b'$' ∷ encode key) (omega arith),
  split-append b'$' (encode salt) (encode key) (encode-Lacks salt hs),
  split_of_Lacks b'$' (encode key) (encode-Lacks key hk),
)

parse_fields_of_some :
    (salt key : Bytes)
    → length salt ≡ 64
    → length key ≡ 64
    → parse_fields (some (pos 1000)) (some salt) (some key)
      ≡ some (record { iterations = 1000; salt = salt; key = key })
unfolding parse_fields
parse_fields_of_some [] key ls lk = absurd (omega arith)
parse_fields_of_some (s ∷ salt) [] ls lk = absurd (omega arith)
parse_fields_of_some (s ∷ salt) (k ∷ key) ls lk = refl

atoi_iterations : atoi (codes "1000") ≡ some (pos 1000)
unfolding atoi
atoi_iterations = refl

-- Reading back a hash that the operator formats from a salt and a key of 64 bytes each gives the
-- count of iterations, that salt and that key.
pub parse_hash-format_hash :
    (salt key : Bytes)
    → All IsByte salt
    → All IsByte key
    → length salt ≡ 64
    → length key ≡ 64
    → parse_hash (format_hash salt key)
      ≡ some (record { iterations = 1000; salt = salt; key = key })
unfolding parse_hash has_prefix trim_prefix parse_parts
parse_hash-format_hash salt key hs hk ls lk =
    rw (split_fields salt key hs hk, atoi_iterations, decode-encode salt hs, decode-encode key hk)
      (parse_fields_of_some salt key ls lk)

plain-one_line : (s : Bytes) → All IsPlain s → Lacks 10 s
plain-one_line [] h = tt
plain-one_line (c ∷ s) h = (h.0.0, plain-one_line s h.1)

format_hash-Lacks :
    (salt key : Bytes) → All IsByte salt → All IsByte key → Lacks 10 (format_hash salt key)
format_hash-Lacks salt key hs hk =
    All-append _ (hash_prefix ++ codes "1000$") (encode salt ++ b'$' ∷ encode key) (omega arith) (
      All-append _ (encode salt) (b'$' ∷ encode key) (plain-one_line _ (encode-IsPlain salt hs))
        (omega arith, plain-one_line _ (encode-IsPlain key hk)))

module _ (c : Crypto) where
  open c use {Reader, read_full, pbkdf2_key}

  -- What a successful `HashPassword` read and derived.
  record Hashed (password : Bytes) (random : Reader) (h : Bytes) (rest : Reader) : Type 0 where
    salt : Bytes
    key : Bytes
    read : read_full 64 random ≡ ok (salt, rest)
    derived : pbkdf2_key password salt hash_iterations key_length ≡ ok key
    written : h ≡ format_hash salt key

  hash_password-Hashed :
      (password : Bytes) (random : Reader) (h : Bytes) (rest : Reader)
      → hash_password c password random ≡ ok (h, rest)
      → Hashed password random h rest
  unfolding hash_password
  hash_password-Hashed password random h rest e = elim (Result-cases (read_full 64 random)) [
    | inl ((salt, r), read) ↦
        elim (Result-cases (pbkdf2_key password salt hash_iterations key_length)) [
          | inl (key, derived) ↦ record {
            salt = salt;
            key = key;
            read = ground arith;
            derived = derived;
            written = ground arith;
          }
          | inr (x, failed) ↦ absurd (ground arith)
        ]
    | inr (x, failed) ↦ absurd (ground arith)
  ]

  -- A password verifies against the hash that `HashPassword` makes of it, whatever the salt.
  pub verify_password-hash_password :
      (password : Bytes) (random : Reader) (h : Bytes) (rest : Reader)
      → hash_password c password random ≡ ok (h, rest)
      → verify_password c h password ≡ true
  unfolding verify_password verify_parsed key_matches
  verify_password-hash_password password random h rest e =
      let record { salt = s; key = k; read = r; derived = d; written = w } =
        hash_password-Hashed password random h rest e in
      let lk = c.pbkdf2_key_length password s hash_iterations key_length k d in
      rw
        (
          w,
          parse_hash-format_hash s k (c.read_full_bytes 64 random rest s r)
              (c.pbkdf2_key_bytes password s hash_iterations key_length k d)
              (c.read_full_length 64 random rest s r) lk,
          lk,
          d,
        )
        (=?_refl k)

  hash_password-Lacks :
      (password : Bytes) (random : Reader) (h : Bytes) (rest : Reader)
      → hash_password c password random ≡ ok (h, rest)
      → Lacks 10 h
  hash_password-Lacks password random h rest e =
      let record { salt = s; key = k; read = r; derived = d; written = w } =
        hash_password-Hashed password random h rest e in
      rw w (
        format_hash-Lacks s k (c.read_full_bytes 64 random rest s r)
          (c.pbkdf2_key_bytes password s hash_iterations key_length k d))

  verify_password-nil : (password : Bytes) → verify_password c [] password ≡ false
  unfolding verify_password verify_parsed parse_hash has_prefix
  verify_password-nil password = refl

  -- Whatever hash was in force, the hash that `keepOrHash` returns verifies the password, whether it
  -- was kept or made.
  pub keep_or_hash_verifies :
      (previous password : Bytes) (random : Reader) (h : Bytes) (rest : Reader)
      → keep_or_hash c previous password random ≡ ok (h, rest)
      → verify_password c h password ≡ true
  unfolding keep_or_hash
  keep_or_hash_verifies previous password random h rest e =
      ground (arith, verify_password-hash_password password random h rest)

  -- A hash that verifies is kept, and no salt is read.
  pub keep_or_hash_keeps :
      (h password : Bytes) (random : Reader)
      → verify_password c h password ≡ true
      → keep_or_hash c h password random ≡ ok (h, random)
  unfolding keep_or_hash
  keep_or_hash_keeps h password random v = ground (arith, verify_password-nil password)

  -- A hash stays on its line: a new one holds no line break, an old one is a part of a line.
  pub keep_or_hash-Lacks :
      (previous password : Bytes) (random : Reader) (h : Bytes) (rest : Reader)
      → Lacks 10 previous
      → keep_or_hash c previous password random ≡ ok (h, rest)
      → Lacks 10 h
  unfolding keep_or_hash
  keep_or_hash-Lacks previous password random h rest lacks e =
      ground (arith, hash_password-Lacks password random h rest)
