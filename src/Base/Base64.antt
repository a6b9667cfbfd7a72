-- ===== src/Base/Base64.antt =====
-- Go's `base64.StdEncoding`: padded, and on decoding line breaks are skipped.
use mosquitto_operator.Base.{
  ℕ, ◌+◌, ◌-◌, ◌*◌, ◌/◌, ◌%◌, ◌<◌, ◌≡◌, refl, Option, none, some, [], ◌∷◌, arith, Bytes, IsByte,
  All, ltb, leb, ◌==◌, ◌&&◌, ◌||◌, if◌then◌else◌, codes, ◌≢◌,
}

-- The character of a six-bit value, and its inverse.
unfoldable pub char_of : ℕ → ℕ
char_of v =
    if ltb v 26
    then v + b'A'
    else if ltb v 52
    then v - 26 + b'a'
    else if ltb v 62
    then v - 52 + b'0'
    else if v == 62
    then b'+'
    else b'/'

unfoldable pub value_of : ℕ → Option ℕ
value_of c =
    if leb b'A' c && leb c b'Z'
    then some (c - b'A')
    else if leb b'a' c && leb c b'z'
    then some (c - b'a' + 26)
    else if leb b'0' c && leb c b'9'
    then some (c - b'0' + 52)
    else if c == b'+'
    then some 62
    else if c == b'/'
    then some 63
    else none

abbrev pub padding : ℕ
padding = b'='

unfoldable pub encode : Bytes → Bytes
encode [] = []
encode (a ∷ []) = char_of (a / 4) ∷ char_of (a % 4 * 16) ∷ padding ∷ padding ∷ []
encode (a ∷ b ∷ []) =
    char_of (a / 4) ∷ char_of (a % 4 * 16 + b / 16) ∷ char_of (b % 16 * 4) ∷ padding ∷ []
encode (a ∷ b ∷ c ∷ s) =
    char_of (a / 4)
    ∷ char_of (a % 4 * 16 + b / 16)
    ∷ char_of (b % 16 * 4 + c / 64)
    ∷ char_of (c % 64)
    ∷ encode s

-- The bytes of a last group of two, three and of any group of four characters.
last_two : Option ℕ → Option ℕ → Option Bytes
last_two (some w) (some x) = some ((w * 4 + x / 16) ∷ [])
last_two _ _ = none

last_three : Option ℕ → Option ℕ → Option ℕ → Option Bytes
last_three (some w) (some x) (some y) = some ((w * 4 + x / 16) ∷ (x % 16 * 16 + y / 4) ∷ [])
last_three _ _ _ = none

group : Option ℕ → Option ℕ → Option ℕ → Option ℕ → Option Bytes → Option Bytes
group (some w) (some x) (some y) (some z) (some rest) =
    some ((w * 4 + x / 16) ∷ (x % 16 * 16 + y / 4) ∷ (y % 4 * 64 + z) ∷ rest)
group _ _ _ _ _ = none

-- A group with padding is the last one.
padded_group : ℕ → ℕ → ℕ → Bytes → Option Bytes
padded_group w x y [] =
    if y == padding
    then last_two (value_of w) (value_of x)
    else last_three (value_of w) (value_of x) (value_of y)
padded_group w x y (c ∷ s) = none

decode_groups : Bytes → Option Bytes
decode_groups [] = some []
decode_groups (w ∷ x ∷ y ∷ z ∷ s) =
    let rest = decode_groups s in
    if z == padding
    then padded_group w x y s
    else group (value_of w) (value_of x) (value_of y) (value_of z) rest
decode_groups _ = none

skip_line_breaks : Bytes → Bytes
skip_line_breaks [] = []
skip_line_breaks (c ∷ s) =
    let rest = skip_line_breaks s in if c == 10 || c == 13 then rest else c ∷ rest

unfoldable pub decode : Bytes → Option Bytes
unfolding skip_line_breaks decode_groups padded_group group last_two last_three
decode s = decode_groups (skip_line_breaks s)

-- A character that an encoding may hold.
abbrev pub IsPlain : ℕ → Type 0
IsPlain c = (c ≢ 10) × (c ≢ 13) × (c ≢ b'$') × (c ≢ b':')

char_of-IsPlain : (v : ℕ) → v < 64 → IsPlain (char_of v) × (char_of v ≢ padding)
unfolding char_of
char_of-IsPlain v h = ground arith

value_of-char_of : (v : ℕ) → v < 64 → value_of (char_of v) ≡ some v
unfolding char_of value_of
value_of-char_of v h = ground arith

-- An encoding holds no line break, no `$` and no colon.
pub encode-IsPlain : (s : Bytes) → All IsByte s → All IsPlain (encode s)
unfolding encode
encode-IsPlain [] h = tt
encode-IsPlain (a ∷ []) h = ground (arith, char_of-IsPlain (a / 4), char_of-IsPlain (a % 4 * 16))
encode-IsPlain (a ∷ b ∷ []) h = ground (
  arith,
  char_of-IsPlain (a / 4),
  char_of-IsPlain (a % 4 * 16 + b / 16),
  char_of-IsPlain (b % 16 * 4),
)
encode-IsPlain (a ∷ b ∷ c ∷ s) h = ground (
  arith,
  char_of-IsPlain (a / 4),
  char_of-IsPlain (a % 4 * 16 + b / 16),
  char_of-IsPlain (b % 16 * 4 + c / 64),
  char_of-IsPlain (c % 64),
  encode-IsPlain s h.1.1.1,
)

skip_plain : (s : Bytes) → All IsPlain s → skip_line_breaks s ≡ s
unfolding skip_line_breaks
skip_plain [] h = refl
skip_plain (c ∷ s) h = ground (arith, skip_plain s h.1)

groups-encode : (s : Bytes) → All IsByte s → decode_groups (encode s) ≡ some s
unfolding decode_groups padded_group group last_two last_three encode
groups-encode [] h = refl
groups-encode (a ∷ []) h = ground (arith, value_of-char_of (a / 4), value_of-char_of (a % 4 * 16))
groups-encode (a ∷ b ∷ []) h = ground (
  arith,
  value_of-char_of (a / 4),
  value_of-char_of (a % 4 * 16 + b / 16),
  value_of-char_of (b % 16 * 4),
  char_of-IsPlain (b % 16 * 4),
)
groups-encode (a ∷ b ∷ c ∷ s) h = ground (
  arith,
  value_of-char_of (a / 4),
  value_of-char_of (a % 4 * 16 + b / 16),
  value_of-char_of (b % 16 * 4 + c / 64),
  value_of-char_of (c % 64),
  char_of-IsPlain (c % 64),
  groups-encode s h.1.1.1,
)

-- Decoding an encoding gives the bytes back.
pub decode-encode : (s : Bytes) → All IsByte s → decode (encode s) ≡ some s
unfolding decode
decode-encode s h = rw (skip_plain (encode s) (encode-IsPlain s h)) (groups-encode s h)

test : decode (encode (codes "Man, ok")) ≡ some (codes "Man, ok")
unfolding encode decode value_of char_of
test = refl
