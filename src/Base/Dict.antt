-- ===== src/Base/Dict.antt =====
-- Go maps with string keys: association lists in which the first entry of a key counts.
-- `for k, v := range m` is a pass over the entries. Go leaves its order open, so a loop that
-- writes is taken from the last entry to the first, which makes the first entry win there too.
use mathlib.Core.Bool.{Bool, true, false, false≢true}
use mathlib.Core.List.{List, [], ◌∷◌}
use mathlib.Core.Logic.{◌⊎◌, inl, inr}
use mathlib.Core.Option.{Option, none, some}
use mathlib.Core.Path.{◌≡◌, refl}
use native.Mathlib.Omega.{arith}
use mosquitto_operator.Base.Lists.{In}
use mosquitto_operator.Base.Tests.{if◌then◌else◌, Bool-cases}
use mosquitto_operator.Base.Texts.{Bytes, ◌=?◌}

abbrev pub Dict {ℓ} : Type ℓ → Type ℓ
Dict V = List (Bytes × V)

-- A set of strings, `map[string]bool`, by the list of its members.
abbrev pub member : Bytes → List Bytes → Bool
member k [] = false
member k (j ∷ ks) = if j =? k then true else member k ks

pub In-member : (k : Bytes) (ks : List Bytes) → In k ks → member k ks ≡ true
In-member k [] h = absurd h
In-member k (j ∷ ks) (inl e) = ground arith
In-member k (j ∷ ks) (inr h) = ground (arith, In-member k ks h)

pub member-In : (k : Bytes) (ks : List Bytes) → member k ks ≡ true → In k ks
member-In k [] h = absurd (false≢true h)
member-In k (j ∷ ks) h = ground (arith, member-In k ks)

module _ {ℓ} {V : Type ℓ} where
  -- `v, ok := m[k]`
  unfoldable pub lookup : Bytes → Dict V → Option V
  lookup k [] = none
  lookup k ((j, v) ∷ m) = if j =? k then some v else lookup k m

  -- `m[k]`, with the value that stands for a missing key
  unfoldable pub get_or : Bytes → V → Dict V → V
  get_or k d [] = d
  get_or k d ((j, v) ∷ m) = if j =? k then v else get_or k d m

  -- `m[k] = v`
  unfoldable pub insert : Bytes → V → Dict V → Dict V
  insert k v [] = (k, v) ∷ []
  insert k v ((j, w) ∷ m) = if j =? k then (k, v) ∷ m else (j, w) ∷ insert k v m

  -- `delete(m, k)`
  unfoldable pub erase : Bytes → Dict V → Dict V
  erase k [] = []
  erase k ((j, w) ∷ m) = let rest = erase k m in if j =? k then rest else (j, w) ∷ rest

  -- `for k, v := range m { out[k] = v }`
  unfoldable pub insert_all : Dict V → Dict V → Dict V
  insert_all [] out = out
  insert_all ((k, v) ∷ m) out = insert k v (insert_all m out)

  -- `for _, k := range ks { delete(m, k) }`
  unfoldable pub erase_all : List Bytes → Dict V → Dict V
  erase_all [] m = m
  erase_all (k ∷ ks) m = erase_all ks (erase k m)

  unfoldable pub keys : Dict V → List Bytes
  keys [] = []
  keys ((k, _) ∷ m) = k ∷ keys m

  -- No key has two entries, as in every Go map.
  abbrev pub NodupKeys : Dict V → Type 0
  NodupKeys [] = Unit
  NodupKeys ((k, _) ∷ m) = ¬ In k (keys m) × NodupKeys m

  pub lookup-insert :
      (j k : Bytes) (v : V) (m : Dict V)
      → lookup j (insert k v m) ≡ (if k =? j then some v else lookup j m)
  unfolding lookup insert
  lookup-insert j k v [] = refl
  lookup-insert j k v ((i, w) ∷ m) = ground (arith, lookup-insert j k v m)

  pub lookup-erase :
      (j k : Bytes) (m : Dict V) → lookup j (erase k m) ≡ (if k =? j then none else lookup j m)
  unfolding lookup erase
  lookup-erase j k [] = ground arith
  lookup-erase j k ((i, w) ∷ m) = ground (arith, lookup-erase j k m)

  abbrev pub or_else : Option V → Option V → Option V
  or_else none b = b
  or_else (some a) b = some a

  pub lookup-insert_all :
      (j : Bytes) (m out : Dict V)
      → lookup j (insert_all m out) ≡ or_else (lookup j m) (lookup j out)
  unfolding lookup insert_all
  lookup-insert_all j [] out = refl
  lookup-insert_all j ((k, v) ∷ m) out =
      ground (arith, lookup-insert j k v (insert_all m out), lookup-insert_all j m out)

  pub lookup-erase_all :
      (j : Bytes) (ks : List Bytes) (m : Dict V)
      → lookup j (erase_all ks m) ≡ (if member j ks then none else lookup j m)
  unfolding erase_all
  lookup-erase_all j [] m = refl
  lookup-erase_all j (k ∷ ks) m =
      ground (arith, lookup-erase_all j ks (erase k m), lookup-erase j k m)

  pub get_or-lookup :
      (k : Bytes) (d : V) (m : Dict V) → get_or k d m ≡ elim (lookup k m) [ none ↦ d | some v ↦ v ]
  unfolding get_or lookup
  get_or-lookup k d [] = refl
  get_or-lookup k d ((j, v) ∷ m) = ground (arith, get_or-lookup k d m)

  -- A key is one of `keys` exactly when it has a value.
  pub member-keys :
      (k : Bytes) (m : Dict V)
      → member k (keys m) ≡ elim (lookup k m) [ none ↦ false | some v ↦ true ]
  unfolding lookup keys
  member-keys k [] = refl
  member-keys k ((j, v) ∷ m) = ground (arith, member-keys k m)

  -- A key after an insertion is the new one or one from before.
  pub In-keys-insert :
      (j k : Bytes) (v : V) (m : Dict V) → In j (keys (insert k v m)) → (j ≡ k) ⊎ In j (keys m)
  unfolding keys insert
  In-keys-insert j k v [] h = h
  In-keys-insert j k v ((i, w) ∷ m) h = ground (arith, In-keys-insert j k v m)

  pub insert-NodupKeys : (k : Bytes) (v : V) (m : Dict V) → NodupKeys m → NodupKeys (insert k v m)
  unfolding keys insert
  insert-NodupKeys k v [] n = ((λ x. x), tt)
  insert-NodupKeys k v ((j, w) ∷ m) n = elim (Bool-cases (j =? k)) [
    | inl q ↦ rw q (ground arith, n.1)
    | inr q ↦ rw q ((λ i. ground (arith, In-keys-insert j k v m i)), insert-NodupKeys k v m n.1)
  ]

  pub insert_all-NodupKeys : (m out : Dict V) → NodupKeys out → NodupKeys (insert_all m out)
  unfolding insert_all
  insert_all-NodupKeys [] out n = n
  insert_all-NodupKeys ((k, v) ∷ m) out n =
      insert-NodupKeys k v (insert_all m out) (insert_all-NodupKeys m out n)

-- A test of the keys.
abbrev pub distinct_keys : Dict Bytes → Bool
distinct_keys [] = true
distinct_keys ((k, v) ∷ m) = if member k (keys m) then false else distinct_keys m

pub NodupKeys-distinct : (m : Dict Bytes) → distinct_keys m ≡ true → NodupKeys m
NodupKeys-distinct [] h = tt
NodupKeys-distinct ((k, v) ∷ m) h =
    (λ i. ground (arith, In-member k (keys m) i), NodupKeys-distinct m (ground arith))
