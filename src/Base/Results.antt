-- ===== src/Base/Results.antt =====
-- Go errors as values. A text that `fmt` would print is kept as its format and its arguments.
use mosquitto_operator.Base.{◌≡◌, refl, ◌⊎◌, inl, inr, List, Bytes}

pub record Message : Type 0 where
  pub format : Bytes
  pub args : List Bytes

-- `external` is an error of code that is called; `wrapped` adds a message to another error.
pub data Error : Type 0 where
  external : Bytes → Error
  new : Message → Error
  wrapped : Message → Error → Error

-- A Go result `(value, error)` of which one part counts.
pub data Result {ℓ} (V : Type ℓ) : Type ℓ where
  err : Error → Result V
  ok : V → Result V

-- `if err != nil { return fmt.Errorf(…, err) }`
abbrev pub wrap {ℓ} : {V : Type ℓ} → Message → Result V → Result V
wrap note (err cause) = err (wrapped note cause)
wrap note (ok v) = ok v

-- `if err != nil { return err }`, and the rest of the function behind it.
infixl 5 ◌>>=◌
abbrev pub ◌>>=◌ {ℓ κ} : {V : Type ℓ} {W : Type κ} → Result V → (V → Result W) → Result W
err cause >>= rest = err cause
ok v >>= rest = rest v

-- A function that succeeds had a value to go on with.
pub >>=-eq-ok {ℓ κ} :
    {V : Type ℓ} {W : Type κ} (first : Result V) (rest : V → Result W) {w : W}
    → (first >>= rest) ≡ ok w
    → (v : V) × (first ≡ ok v) × (rest v ≡ ok w)
>>=-eq-ok (err cause) rest h = cc
>>=-eq-ok (ok v) rest h = (v, refl, h)

pub wrap-eq-ok {ℓ} : {A : Type ℓ} (m : Message) (r : Result A) {a : A} → wrap m r ≡ ok a → r ≡ ok a
wrap-eq-ok m (ok a) h = h
wrap-eq-ok m (err e) h = cc

pub Result-cases {ℓ} :
    {A : Type ℓ} (r : Result A) → ((a : A) × (r ≡ ok a)) ⊎ ((e : Error) × (r ≡ err e))
Result-cases (ok a) = inl (a, refl)
Result-cases (err e) = inr (e, refl)
