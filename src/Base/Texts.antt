-- ===== src/Base/Texts.antt =====
-- Go strings and byte slices: lists of numbers below 256, compared whole and in byte order.
use Prim.Native.Nat.{ℕ, ◌<◌}
use Prim.Native.Char.{code}
use Prim.Native.String.{String}
use mathlib.Core.Path.{◌≡◌, refl}
use mathlib.Core.Logic.{ite, ◌≢◌}
use mathlib.Core.Bool.{Bool, true, false, ◌&&◌, Bool-discrete}
use mathlib.Core.List.{List, [], ◌∷◌}
use mathlib.Core.Logic.{dite}
use native.Mathlib.Omega.{arith}
use mosquitto_operator.Base.Tests.{◌==◌, ltb, if◌then◌else◌}

abbrev pub Bytes : Type 0
Bytes = List ℕ

abbrev pub IsByte : ℕ → Type 0
IsByte c = c < 256

-- The code points of a literal: its bytes, since every literal of the program is ASCII.
abbrev pub codes : String → Bytes
codes String.[] = []
codes (String.◌∷◌ c s) = code c ∷ codes s

unfoldable pub bytes_beq : Bytes → Bytes → Bool
bytes_beq [] [] = true
bytes_beq (a ∷ s) (b ∷ t) = a == b && bytes_beq s t
bytes_beq _ _ = false

pub bytes_beq-eq : (s t : Bytes) → bytes_beq s t ≡ true → s ≡ t
unfolding bytes_beq
bytes_beq-eq [] [] h = refl
bytes_beq-eq [] (b ∷ t) h = cc
bytes_beq-eq (a ∷ s) [] h = cc
bytes_beq-eq (a ∷ s) (b ∷ t) h = ground (arith, bytes_beq-eq s t)

pub bytes_beq_refl : (s : Bytes) → bytes_beq s s ≡ true
unfolding bytes_beq
bytes_beq_refl [] = refl
bytes_beq_refl (a ∷ s) = ground (arith, bytes_beq_refl s)

pub bytes_beq-ne : (s t : Bytes) → ¬ (bytes_beq s t ≡ true) → s ≢ t
bytes_beq-ne s t h e = h (rw (← e) (bytes_beq_refl s))

unfoldable pub bytes_discrete : Discrete Bytes
unfolding bytes_beq
bytes_discrete s t =
    dite (Bool-discrete (bytes_beq s t) true) (λ p. yes (bytes_beq-eq s t p))
      (λ n. no (bytes_beq-ne s t n))

-- Go's `==` on strings.
infix 50 ◌=?◌
abbrev pub ◌=?◌ : Bytes → Bytes → Bool
s =? t = ite (bytes_discrete s t) true false

pub =?_refl : (s : Bytes) → (s =? s) ≡ true
=?_refl s = ground arith

-- Go's `<` on strings: the order of the first differing byte, a prefix first.
unfoldable pub bytes_ltb : Bytes → Bytes → Bool
bytes_ltb s [] = false
bytes_ltb [] (b ∷ t) = true
bytes_ltb (a ∷ s) (b ∷ t) =
    let rest = bytes_ltb s t in if ltb a b then true else if a == b then rest else false

eq_test : (codes "abc" =? codes "abc") ≡ true
unfolding bytes_discrete
eq_test = refl
