-- ===== src/Base/Strings.antt =====
-- What the program uses of Go's package `strings`, at separators and cut sets of single bytes.
-- An index into a string is a byte position.
use mosquitto_operator.Base.{
  ℕ, suc, ◌+◌, ◌≡◌, refl, ◌≢◌, Bool, true, false, Option, none, some, List, [], ◌∷◌, ◌++◌, arith,
  Bytes, ◌==◌, leb, ◌&&◌, if◌then◌else◌, All, map,
}
use mathlib.Core.List.{reverse}

-- `HasPrefix(s, p)`
unfoldable pub has_prefix : Bytes → Bytes → Bool
has_prefix s [] = true
has_prefix [] (b ∷ p) = false
has_prefix (a ∷ s) (b ∷ p) = a == b && has_prefix s p

-- `CutPrefix(s, p)`
unfoldable pub cut_prefix : Bytes → Bytes → Option Bytes
cut_prefix s [] = some s
cut_prefix [] (b ∷ p) = none
cut_prefix (a ∷ s) (b ∷ p) = let rest = cut_prefix s p in if a == b then rest else none

-- `TrimPrefix(s, p)`
unfoldable pub trim_prefix : Bytes → Bytes → Bytes
unfolding cut_prefix
trim_prefix s p = elim (cut_prefix s p) [ none ↦ s | some rest ↦ rest ]

-- `TrimSuffix(s, p)`
unfoldable pub trim_suffix : Bytes → Bytes → Bytes
unfolding trim_prefix
trim_suffix s p = reverse (trim_prefix (reverse s) (reverse p))

-- `Contains(s, c)`
unfoldable pub contains : Bytes → ℕ → Bool
contains [] c = false
contains (b ∷ s) c = if b == c then true else contains s c

-- `Index(s, c)`
unfoldable pub index : Bytes → ℕ → Option ℕ
index [] c = none
index (b ∷ s) c =
    let rest = index s c in
    if b == c then some 0 else elim rest [ none ↦ none | some i ↦ some (suc i) ]

-- `LastIndex(s, c)`
unfoldable pub last_index : Bytes → ℕ → Option ℕ
last_index [] c = none
last_index (b ∷ s) c = elim (last_index s c) [
  | none ↦ if b == c then some 0 else none
  | some i ↦ some (suc i)
]

-- `Cut(s, c)`: what stands before and after the first `c`.
unfoldable pub cut : Bytes → ℕ → Option (Bytes × Bytes)
cut [] c = none
cut (b ∷ s) c =
    let rest = cut s c in
    if b == c
    then some ([], s)
    else elim rest [ none ↦ none | some (before, after) ↦ some (b ∷ before, after) ]

abbrev pub push : ℕ → List Bytes → List Bytes
push c [] = (c ∷ []) ∷ []
push c (p ∷ ps) = (c ∷ p) ∷ ps

-- `Split(s, sep)`
unfoldable pub split : Bytes → ℕ → List Bytes
split [] sep = [] ∷ []
split (c ∷ s) sep = let rest = split s sep in if c == sep then [] ∷ rest else push c rest

-- `Join(parts, sep)`
unfoldable pub join : List Bytes → ℕ → Bytes
join [] sep = []
join (p ∷ []) sep = p
join (p ∷ q ∷ ps) sep = p ++ sep ∷ join (q ∷ ps) sep

-- `TrimLeft` and `TrimRight` of the bytes that `drops` takes
unfoldable pub trim_left : (ℕ → Bool) → Bytes → Bytes
trim_left drops [] = []
trim_left drops (c ∷ s) = if drops c then trim_left drops s else c ∷ s

unfoldable pub trim_right : (ℕ → Bool) → Bytes → Bytes
trim_right drops [] = []
trim_right drops (c ∷ s) = elim (trim_right drops s) [
  | [] ↦ if drops c then [] else c ∷ []
  | d ∷ r ↦ c ∷ d ∷ r
]

-- `Trim`
unfoldable pub trim : (ℕ → Bool) → Bytes → Bytes
unfolding trim_left trim_right
trim drops s = trim_right drops (trim_left drops s)

-- `ReplaceAll(s, old, new)`
unfoldable pub replace_all : Bytes → ℕ → ℕ → Bytes
replace_all s old new = map (λ c. if c == old then new else c) s

-- `ToLower` of an ASCII string
unfoldable pub to_lower : Bytes → Bytes
to_lower = map (λ c. if leb b'A' c && leb c b'Z' then c + 32 else c)

-- A string in which the byte `c` does not occur.
abbrev pub Lacks : ℕ → Bytes → Type 0
Lacks c = All (λ b. b ≢ c)

pub split-append :
    (sep : ℕ) (p s : Bytes) → Lacks sep p → split (p ++ sep ∷ s) sep ≡ p ∷ split s sep
unfolding split
split-append sep [] s h = ground arith
split-append sep (c ∷ p) s h = ground (arith, split-append sep p s)

pub split_of_Lacks : (sep : ℕ) (p : Bytes) → Lacks sep p → split p sep ≡ p ∷ []
unfolding split
split_of_Lacks sep [] h = refl
split_of_Lacks sep (c ∷ p) h = ground (arith, split_of_Lacks sep p)

-- Splitting a join gives the parts back, if there is a part and none holds the separator.
pub split-join :
    (sep : ℕ) (p : Bytes) (ps : List Bytes)
    → All (Lacks sep) (p ∷ ps)
    → split (join (p ∷ ps) sep) sep ≡ p ∷ ps
unfolding join
split-join sep p [] h = split_of_Lacks sep p h.0
split-join sep p (q ∷ ps) h =
    cc (split-append sep p (join (q ∷ ps) sep) h.0, split-join sep q ps h.1)

pub split-Lacks : (sep : ℕ) (s : Bytes) → All (Lacks sep) (split s sep)
unfolding split
split-Lacks sep [] = (tt, tt)
split-Lacks sep (c ∷ s) = ground (arith, split-Lacks sep s)

pub cut-append : (c : ℕ) (p s : Bytes) → Lacks c p → cut (p ++ c ∷ s) c ≡ some (p, s)
unfolding cut
cut-append c [] s h = ground arith
cut-append c (b ∷ p) s h = ground (arith, cut-append c p s)

-- What a cut gives spells the string again, and the first part lacks the separator.
pub cut_sound :
    (c : ℕ) (s before after : Bytes)
    → cut s c ≡ some (before, after)
    → (s ≡ before ++ c ∷ after) × Lacks c before
unfolding cut
cut_sound c [] before after h = cc
cut_sound c (b ∷ s) [] after h = ground arith
cut_sound c (b ∷ s) (d ∷ before) after h = ground (arith, cut_sound c s before after)

pub Lacks-contains : (c : ℕ) (s : Bytes) → contains s c ≡ false → Lacks c s
unfolding contains
Lacks-contains c [] h = tt
Lacks-contains c (b ∷ s) h = (ground arith, Lacks-contains c s (ground arith))
