-- ===== src/Builder/Hash.antt =====
-- internal/builder/statefulset.go: `hashOf` over an encoded value, 32-bit FNV-1a in hexadecimal.
use mosquitto_operator.Base.{
  ℕ, zero, suc, ◌+◌, ◌-◌, ◌*◌, ◌/◌, ◌%◌, ◌^◌, ◌≡◌, refl, [], ◌∷◌, Bytes, codes, ltb, if◌then◌else◌,
}

-- Exclusive or of `width` bits.
unfoldable pub xor : ℕ → ℕ → ℕ → ℕ
xor zero a b = 0
xor (suc width) a b = (a % 2 + b % 2) % 2 + 2 * xor width (a / 2) (b / 2)

unfoldable pub fnv : ℕ → Bytes → ℕ
fnv h [] = h
fnv h (c ∷ s) = fnv ((xor 32 h c * 16777619) % 2 ^ 32) s

hex_digit : ℕ → ℕ
hex_digit d = if ltb d 10 then b'0' + d else b'a' + (d - 10)

-- `%08x`
hex : ℕ → ℕ → Bytes → Bytes
unfolding hex_digit
hex zero n out = out
hex (suc width) n out = hex width (n / 16) (hex_digit (n % 16) ∷ out)

unfoldable pub hash_of : Bytes → Bytes
unfolding hex fnv xor
hash_of encoded = hex 8 (fnv 2166136261 encoded) []

hash_of_test : hash_of (codes "a") ≡ codes "e40c292c"
unfolding hash_of
hash_of_test = refl
