-- ===== src/Base/Sorted.antt =====
-- Sorting by a strict weak order gives an ordered list, and byte order is one.
use mosquitto_operator.Base.{
  ◌≡◌, refl, Bool, true, false, List, [], ◌∷◌, arith, Bytes, bytes_ltb, All, inl, inr, Bool-cases,
}
use mosquitto_operator.Base.Sort.{insert_sorted, sort, All-insert_sorted}

-- "Not less" is a total preorder.
pub record IsOrder {A : Type 0} (less : A → A → Bool) : Type 0 where
  pub asym : (a b : A) → less a b ≡ true → less b a ≡ false
  pub neg_trans : (a b c : A) → less a b ≡ false → less b c ≡ false → less a c ≡ false

module _ {A : Type 0} (less : A → A → Bool) where
  -- No later element is less than an earlier one.
  abbrev pub IsSorted : List A → Type 0
  IsSorted [] = Unit
  IsSorted (x ∷ xs) = All (λ y. less y x ≡ false) xs × IsSorted xs

  module _ (order : IsOrder less) where
    All-not_less :
        (x y : A) (ys : List A)
        → less y x ≡ false
        → All (λ z. less z y ≡ false) ys
        → All (λ z. less z x ≡ false) ys
    All-not_less x y [] h all = tt
    All-not_less x y (z ∷ ys) h all = (order.neg_trans z y x all.0 h, All-not_less x y ys h all.1)

    insert_sorted-IsSorted :
        (x : A) (xs : List A) → IsSorted xs → IsSorted (insert_sorted less x xs)
    unfolding insert_sorted
    insert_sorted-IsSorted x [] s = (tt, tt)
    insert_sorted-IsSorted x (y ∷ ys) s = elim (Bool-cases (less y x)) [
      | inl e ↦ rw e (
        All-insert_sorted less (λ z. less z y ≡ false) x ys (order.asym y x e) s.0,
        insert_sorted-IsSorted x ys s.1,
      )
      | inr e ↦ rw e ((e, All-not_less x y ys e s.0), s)
    ]

    pub sort-IsSorted : (xs : List A) → IsSorted (sort less xs)
    unfolding sort
    sort-IsSorted [] = tt
    sort-IsSorted (x ∷ xs) = insert_sorted-IsSorted x (sort less xs) (sort-IsSorted xs)

bytes_ltb_asym : (a b : Bytes) → bytes_ltb a b ≡ true → bytes_ltb b a ≡ false
unfolding bytes_ltb
bytes_ltb_asym a [] h = cc
bytes_ltb_asym [] (y ∷ b) h = cc
bytes_ltb_asym (x ∷ a) (y ∷ b) h = ground (arith, bytes_ltb_asym a b)

bytes_ltb_neg_trans :
    (a b c : Bytes) → bytes_ltb a b ≡ false → bytes_ltb b c ≡ false → bytes_ltb a c ≡ false
unfolding bytes_ltb
bytes_ltb_neg_trans a b [] p q = cc
bytes_ltb_neg_trans [] [] (z ∷ c) p q = cc
bytes_ltb_neg_trans [] (y ∷ b) (z ∷ c) p q = cc
bytes_ltb_neg_trans (x ∷ a) [] (z ∷ c) p q = cc
bytes_ltb_neg_trans (x ∷ a) (y ∷ b) (z ∷ c) p q = ground (arith, bytes_ltb_neg_trans a b c)

pub bytes_ltb-IsOrder : IsOrder bytes_ltb
bytes_ltb-IsOrder = record { asym = bytes_ltb_asym; neg_trans = bytes_ltb_neg_trans }

-- Two texts of which neither is less are equal.
pub bytes_ltb_connected : (a b : Bytes) → bytes_ltb a b ≡ false → bytes_ltb b a ≡ false → a ≡ b
unfolding bytes_ltb
bytes_ltb_connected [] [] p q = refl
bytes_ltb_connected [] (y ∷ b) p q = cc
bytes_ltb_connected (x ∷ a) [] p q = cc
bytes_ltb_connected (x ∷ a) (y ∷ b) p q = ground (arith, bytes_ltb_connected a b)
