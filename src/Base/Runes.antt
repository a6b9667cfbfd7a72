-- ===== src/Base/Runes.antt =====
-- Go strings read as runes: the UTF-8 decoder of `range` and `utf8.DecodeRuneInString`, and what
-- the program uses of `strings`, `unicode` and `utf8` above it.
use mosquitto_operator.Base.{
  ℕ, zero, suc, ◌+◌, ◌-◌, ◌*◌, ◌≡◌, refl, Bool, true, false, ◌&&◌, ◌||◌, List, [], ◌∷◌, ◌++◌, Bytes,
  ltb, leb, ◌==◌, if◌then◌else◌, codes, length,
}
use mathlib.Core.List.{reverse}

-- A decoded rune, the bytes that it was read from, and whether they were valid.
pub record Rune : Type 0 where
  pub code : ℕ
  pub source : Bytes
  pub valid : Bool

abbrev pub rune_error : ℕ
rune_error = 0xFFFD

abbrev within : ℕ → ℕ → ℕ → Bool
within lo hi c = leb lo c && leb c hi

-- The range that the second byte may have after the first.
unfoldable pub second_ok : ℕ → ℕ → Bool
second_ok b0 b1 =
    if b0 == 0xE0
    then within 0xA0 0xBF b1
    else if b0 == 0xED
    then within 0x80 0x9F b1
    else if b0 == 0xF0
    then within 0x90 0xBF b1
    else if b0 == 0xF4
    then within 0x80 0x8F b1
    else within 0x80 0xBF b1

abbrev invalid : ℕ → Rune
invalid b = record { code = rune_error; source = b ∷ []; valid = false }

-- Three bytes that begin a three-byte rune, and four.
unfoldable pub decode_three : ℕ → ℕ → ℕ → Rune
unfolding second_ok
decode_three b0 b1 b2 =
    if second_ok b0 b1 && within 0x80 0xBF b2
    then record {
      code = (b0 - 0xE0) * 4096 + (b1 - 0x80) * 64 + (b2 - 0x80);
      source = b0 ∷ b1 ∷ b2 ∷ [];
      valid = true;
    }
    else invalid b0

unfoldable pub decode_four : ℕ → ℕ → ℕ → ℕ → Rune
unfolding second_ok
decode_four b0 b1 b2 b3 =
    if second_ok b0 b1 && within 0x80 0xBF b2 && within 0x80 0xBF b3
    then record {
      code = (b0 - 0xF0) * 262144 + (b1 - 0x80) * 4096 + (b2 - 0x80) * 64 + (b3 - 0x80);
      source = b0 ∷ b1 ∷ b2 ∷ b3 ∷ [];
      valid = true;
    }
    else invalid b0

-- A byte from which no rune of two bytes or more can begin gives an error of one byte.
unfoldable pub decode_long : ℕ → Bytes → Rune
unfolding decode_three decode_four
decode_long b0 [] = invalid b0
decode_long b0 (b1 ∷ []) =
    if within 0xC2 0xDF b0 && within 0x80 0xBF b1
    then record { code = (b0 - 0xC0) * 64 + (b1 - 0x80); source = b0 ∷ b1 ∷ []; valid = true }
    else invalid b0
decode_long b0 (b1 ∷ b2 ∷ []) =
    if within 0xC2 0xDF b0 && within 0x80 0xBF b1
    then record { code = (b0 - 0xC0) * 64 + (b1 - 0x80); source = b0 ∷ b1 ∷ []; valid = true }
    else if within 0xE0 0xEF b0
    then decode_three b0 b1 b2
    else invalid b0
decode_long b0 (b1 ∷ b2 ∷ b3 ∷ _) =
    if within 0xC2 0xDF b0 && within 0x80 0xBF b1
    then record { code = (b0 - 0xC0) * 64 + (b1 - 0x80); source = b0 ∷ b1 ∷ []; valid = true }
    else if within 0xE0 0xEF b0
    then decode_three b0 b1 b2
    else if within 0xF0 0xF4 b0
    then decode_four b0 b1 b2 b3
    else invalid b0

unfoldable pub decode_rune : ℕ → Bytes → Rune
unfolding decode_long
decode_rune b s =
    if ltb b 0x80 then record { code = b; source = b ∷ []; valid = true } else decode_long b s

-- The first argument counts the bytes that still belong to the rune before.
unfoldable pub runes_from : ℕ → Bytes → List Rune
runes_from _ [] = []
runes_from zero (b ∷ s) = let r = decode_rune b s in r ∷ runes_from (length r.source - 1) s
runes_from (suc n) (b ∷ s) = runes_from n s

-- `for _, r := range s`
unfoldable pub runes : Bytes → List Rune
unfolding runes_from decode_rune
runes = runes_from 0

-- `utf8.ValidString`
all_valid : List Rune → Bool
all_valid [] = true
all_valid (r ∷ rs) = r.valid && all_valid rs

unfoldable pub valid_string : Bytes → Bool
unfolding all_valid runes
valid_string s = all_valid (runes s)

-- `unicode.IsSpace`
unfoldable pub is_space : ℕ → Bool
is_space c =
    within 9 13 c
    || c == 0x20
    || c == 0x85
    || c == 0xA0
    || c == 0x1680
    || within 0x2000 0x200A c
    || c == 0x2028
    || c == 0x2029
    || c == 0x202F
    || c == 0x205F
    || c == 0x3000

drop_spaces : List Rune → List Rune
drop_spaces [] = []
drop_spaces (r ∷ rs) = if is_space r.code then drop_spaces rs else r ∷ rs

unfoldable pub sources : List Rune → Bytes
sources [] = []
sources (r ∷ rs) = r.source ++ sources rs

-- `strings.TrimSpace`
unfoldable pub trim_space : Bytes → Bytes
unfolding runes is_space drop_spaces sources
trim_space s = sources (reverse (drop_spaces (reverse (drop_spaces (runes s)))))

-- `strings.Fields`: the runs of runes that are no space. The second argument is the run at hand.
fields_from : List Rune → Bytes → List Bytes
fields_from [] [] = []
fields_from [] (c ∷ cur) = (c ∷ cur) ∷ []
fields_from (r ∷ rs) [] = if is_space r.code then fields_from rs [] else fields_from rs r.source
fields_from (r ∷ rs) (c ∷ cur) = elim (is_space r.code) [
  | true ↦ (c ∷ cur) ∷ fields_from rs []
  | false ↦ fields_from rs ((c ∷ cur) ++ r.source)
]

unfoldable pub fields : Bytes → List Bytes
unfolding fields_from runes is_space
fields s = fields_from (runes s) []

fields_test : fields (codes "  max_qos\t 1 ") ≡ codes "max_qos" ∷ codes "1" ∷ []
unfolding fields
fields_test = refl

-- U+00A0 is a space for Go, and a stray byte 0xFF is none.
trim_space_test : trim_space (0xC2 ∷ 0xA0 ∷ 97 ∷ 32 ∷ 0xFF ∷ 10 ∷ []) ≡ 97 ∷ 32 ∷ 0xFF ∷ []
unfolding trim_space
trim_space_test = refl
