-- ===== src/Labels/Valid.antt =====
-- Why every version label that `ExtractVersionFromImage` derives is one the API server accepts.
use mosquitto_operator.Base.{
  ℕ, ◌≤◌, ◌≡◌, refl, Bool, true, false, List, [], ◌∷◌, ◌⊎◌, inl, inr, arith, Bytes, length, All,
  All-take, length-take-le, map, codes, ltb, Option, none, some, bytes_discrete, Bool-cases, ◌||◌,
}
use mosquitto_operator.Base.Runes.{Rune, runes}
use mosquitto_operator.Base.Strings.{trim_left, trim_right, trim}
use mosquitto_operator.Labels.Defs.{
  truncated, or_unknown, version_of_tag, version_of_image, is_alnum, is_punctuation, label_byte,
  sanitize_label_value, extract_version_from_image,
}

abbrev pub First : (ℕ → Type 0) → Bytes → Type 0
First P [] = ⊥
First P (c ∷ s) = P c

abbrev pub Last : (ℕ → Type 0) → Bytes → Type 0
Last P [] = ⊥
Last P (c ∷ []) = P c
Last P (c ∷ d ∷ s) = Last P (d ∷ s)

abbrev pub IsAlnum : ℕ → Type 0
IsAlnum c = is_alnum c ≡ true

abbrev pub IsLabelByte : ℕ → Type 0
IsLabelByte c = (is_alnum c || is_punctuation c) ≡ true

-- What the API server asks of a label value that is not empty: at most 63 bytes, letters, digits
-- and `-_.`, with a letter or a digit at both ends.
pub record IsLabelValue (s : Bytes) : Type 0 where
  pub short : length s ≤ 63
  pub bytes : All IsLabelByte s
  pub first : First IsAlnum s
  pub last : Last IsAlnum s

module _ (drops : ℕ → Bool) where
  abbrev Kept : ℕ → Type 0
  Kept c = drops c ≡ false

  All-trim_left : (P : ℕ → Type 0) (s : Bytes) → All P s → All P (trim_left drops s)
  unfolding trim_left
  All-trim_left P [] h = h
  All-trim_left P (c ∷ s) h = ground (arith, All-trim_left P s h.1)

  All-trim_right : (P : ℕ → Type 0) (s : Bytes) → All P s → All P (trim_right drops s)
  unfolding trim_right
  All-trim_right P [] h = h
  All-trim_right P (c ∷ s) h = ground (arith, All-trim_right P s h.1)

  length-trim_left-le : (s : Bytes) → length (trim_left drops s) ≤ length s
  unfolding trim_left
  length-trim_left-le [] = omega arith
  length-trim_left-le (c ∷ s) = ground (arith, length-trim_left-le s)

  length-trim_right-le : (s : Bytes) → length (trim_right drops s) ≤ length s
  unfolding trim_right
  length-trim_right-le [] = omega arith
  length-trim_right-le (c ∷ s) = ground (arith, length-trim_right-le s)

  First-trim_left : (s : Bytes) → (trim_left drops s ≡ []) ⊎ First Kept (trim_left drops s)
  unfolding trim_left
  First-trim_left [] = inl refl
  First-trim_left (c ∷ s) = ground (arith, First-trim_left s)

  First-trim_right :
      (s : Bytes)
      → (s ≡ []) ⊎ First Kept s
      → (trim_right drops s ≡ []) ⊎ First Kept (trim_right drops s)
  unfolding trim_right
  First-trim_right [] h = inl refl
  First-trim_right (c ∷ s) h = ground arith

  Last-trim_right : (s : Bytes) → (trim_right drops s ≡ []) ⊎ Last Kept (trim_right drops s)
  unfolding trim_right
  Last-trim_right [] = inl refl
  Last-trim_right (c ∷ s) = ground (arith, Last-trim_right s)

-- A byte of a label value that the trimming keeps is a letter or a digit.
First-IsAlnum : (s : Bytes) → All IsLabelByte s → First (Kept is_punctuation) s → First IsAlnum s
First-IsAlnum [] b h = h
First-IsAlnum (c ∷ s) b h = ground arith

Last-IsAlnum : (s : Bytes) → All IsLabelByte s → Last (Kept is_punctuation) s → Last IsAlnum s
Last-IsAlnum [] b h = h
Last-IsAlnum (c ∷ []) b h = ground arith
Last-IsAlnum (c ∷ d ∷ s) b h = Last-IsAlnum (d ∷ s) b.1 h

label_byte-IsLabelByte : (r : Rune) → IsLabelByte (label_byte r)
unfolding label_byte
label_byte-IsLabelByte r = ground arith

All-label_byte : (rs : List Rune) → All IsLabelByte (map label_byte rs)
All-label_byte [] = tt
All-label_byte (r ∷ rs) = (label_byte-IsLabelByte r, All-label_byte rs)

trim-IsLabelValue :
    (s : Bytes)
    → All IsLabelByte s
    → length s ≤ 63
    → (trim is_punctuation s ≡ []) ⊎ IsLabelValue (trim is_punctuation s)
unfolding trim
trim-IsLabelValue s b short =
    let left = trim_left is_punctuation s in
    let bytes =
      All-trim_right is_punctuation IsLabelByte left
        (All-trim_left is_punctuation IsLabelByte s b) in
    elim (First-trim_right is_punctuation left (First-trim_left is_punctuation s)) [
      | inl e ↦ inl e
      | inr first ↦ elim (Last-trim_right is_punctuation left) [
        | inl e ↦ inl e
        | inr last ↦ inr (record {
          short = omega (
            arith,
            length-trim_right-le is_punctuation left,
            length-trim_left-le is_punctuation s,
          );
          bytes = bytes;
          first = First-IsAlnum _ bytes first;
          last = Last-IsAlnum _ bytes last;
        })
      ]
    ]

unknown-IsLabelValue : IsLabelValue (codes "unknown")
unfolding is_alnum
unknown-IsLabelValue = record {
  short = omega arith;
  bytes = (refl, (refl, (refl, (refl, (refl, (refl, (refl, tt)))))));
  first = refl;
  last = refl;
}

latest-IsLabelValue : IsLabelValue (codes "latest")
unfolding is_alnum
latest-IsLabelValue = record {
  short = omega arith;
  bytes = (refl, (refl, (refl, (refl, (refl, (refl, tt))))));
  first = refl;
  last = refl;
}

truncated-short : (s : Bytes) → length (truncated s) ≤ 63
unfolding truncated
truncated-short s = elim (Bool-cases (ltb 63 (length s))) [
  | inl e ↦ rw e (length-take-le 63 s)
  | inr e ↦ rw e (ground arith)
]

truncated-bytes : (s : Bytes) → All IsLabelByte s → All IsLabelByte (truncated s)
unfolding truncated
truncated-bytes s h = elim (Bool-cases (ltb 63 (length s))) [
  | inl e ↦ rw e (All-take IsLabelByte 63 s h)
  | inr e ↦ rw e h
]

or_unknown-IsLabelValue : (s : Bytes) → (s ≡ []) ⊎ IsLabelValue s → IsLabelValue (or_unknown s)
unfolding or_unknown
or_unknown-IsLabelValue [] h = unfold bytes_discrete in unknown-IsLabelValue
or_unknown-IsLabelValue (c ∷ s) (inl e) = cc
or_unknown-IsLabelValue (c ∷ s) (inr h) = unfold bytes_discrete in h

-- Whatever text is coerced, the result is a valid label value.
pub sanitize_label_value-IsLabelValue : (value : Bytes) → IsLabelValue (sanitize_label_value value)
unfolding sanitize_label_value
sanitize_label_value-IsLabelValue value =
    let written = map label_byte (runes value) in
    or_unknown-IsLabelValue _ (
      trim-IsLabelValue (truncated written) (truncated-bytes written (All-label_byte (runes value)))
        (truncated-short written))

version_of_tag-IsLabelValue : (tag : Bytes) (o : Option ℕ) → IsLabelValue (version_of_tag tag o)
unfolding version_of_tag
version_of_tag-IsLabelValue tag (some idx) = sanitize_label_value-IsLabelValue _
version_of_tag-IsLabelValue tag none = latest-IsLabelValue

version_of_image-IsLabelValue :
    (image : Bytes) (o : Option ℕ) → IsLabelValue (version_of_image image o)
unfolding version_of_image
version_of_image-IsLabelValue image (some idx) = sanitize_label_value-IsLabelValue _
version_of_image-IsLabelValue image none = version_of_tag-IsLabelValue _ _

-- Whatever the image reference is, the version label that is derived from it is one that the API
-- server accepts: 1 to 63 bytes of `[A-Za-z0-9._-]`, with a letter or a digit at both ends.
pub extract_version_from_image-IsLabelValue :
    (image : Bytes) → IsLabelValue (extract_version_from_image image)
unfolding extract_version_from_image
extract_version_from_image-IsLabelValue image = version_of_image-IsLabelValue image _
