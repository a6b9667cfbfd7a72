-- ===== src/Base/Ascii.antt =====
-- In a UTF-8 string an ASCII byte is a rune of its own: what no rune is, no ASCII byte is.
use mosquitto_operator.Base.{
  ℕ, zero, suc, ◌-◌, ◌≤◌, ◌<◌, ◌≡◌, inl, inr, true, [], ◌∷◌, arith, Bytes, All, length, ltb,
  Bool-cases,
}
use mosquitto_operator.Base.Runes.{
  Rune, second_ok, decode_three, decode_four, decode_long, decode_rune, runes_from, runes,
}

-- The first `n` bytes are none of ASCII.
abbrev FirstHigh : ℕ → Bytes → Type 0
FirstHigh zero s = Unit
FirstHigh (suc n) [] = Unit
FirstHigh (suc n) (b ∷ s) = (0x80 ≤ b) × FirstHigh n s

second_ok-high : (b0 b1 : ℕ) → second_ok b0 b1 ≡ true → 0x80 ≤ b1
unfolding second_ok
second_ok-high b0 b1 h = ground arith

decode_three-high :
    (b0 b1 b2 : ℕ) (s : Bytes) → FirstHigh (length (decode_three b0 b1 b2).source - 1) (b1 ∷ b2 ∷ s)
unfolding decode_three
decode_three-high b0 b1 b2 s = ground (arith, second_ok-high b0 b1)

decode_four-high :
    (b0 b1 b2 b3 : ℕ) (s : Bytes)
    → FirstHigh (length (decode_four b0 b1 b2 b3).source - 1) (b1 ∷ b2 ∷ b3 ∷ s)
unfolding decode_four
decode_four-high b0 b1 b2 b3 s = ground (arith, second_ok-high b0 b1)

decode_long-high : (b : ℕ) (s : Bytes) → FirstHigh (length (decode_long b s).source - 1) s
unfolding decode_long
decode_long-high b [] = tt
decode_long-high b (b1 ∷ []) = ground arith
decode_long-high b (b1 ∷ b2 ∷ []) = ground (arith, decode_three-high b b1 b2 [])
decode_long-high b (b1 ∷ b2 ∷ b3 ∷ s) =
    ground (arith, decode_three-high b b1 b2 (b3 ∷ s), decode_four-high b b1 b2 b3 s)

decode_rune-high : (b : ℕ) (s : Bytes) → FirstHigh (length (decode_rune b s).source - 1) s
unfolding decode_rune
decode_rune-high b s = ground (arith, decode_long-high b s)

decode_rune-low : (b : ℕ) (s : Bytes) → b < 0x80 → (decode_rune b s).code ≡ b
unfolding decode_rune
decode_rune-low b s h = ground arith

-- A property of runes that all bytes above ASCII have.
module _ (P : ℕ → Type 0) (high : (b : ℕ) → 0x80 ≤ b → P b) where
  byte_of_code : (b : ℕ) (s : Bytes) → P (decode_rune b s).code → P b
  byte_of_code b s h = elim (Bool-cases (ltb b 0x80)) [
    | inl low ↦ rw (← decode_rune-low b s (ground arith)) h
    | inr e ↦ high b (ground arith)
  ]

  All-runes_from :
      (n : ℕ) (s : Bytes) → FirstHigh n s → All (λ (r : Rune). P r.code) (runes_from n s) → All P s
  unfolding runes_from
  All-runes_from n [] f h = tt
  All-runes_from zero (b ∷ s) f h = (
    byte_of_code b s h.0,
    All-runes_from (length (decode_rune b s).source - 1) s (decode_rune-high b s) h.1,
  )
  All-runes_from (suc n) (b ∷ s) f h = (high b f.0, All-runes_from n s f.1 h)

  -- What every rune of a string is, every byte of it is.
  pub All-runes : (s : Bytes) → All (λ (r : Rune). P r.code) (runes s) → All P s
  unfolding runes
  All-runes s h = All-runes_from 0 s tt h
