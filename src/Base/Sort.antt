-- ===== src/Base/Sort.antt =====
-- Go's `sort.Slice` and `sort.Strings`, as insertion by a Boolean "less": it keeps the elements
-- and their number, and the result is ordered.
use mosquitto_operator.Base.{
  ◌≡◌, Bool, List, [], ◌∷◌, arith, Bytes, bytes_ltb, if◌then◌else◌, In, All, inl, inr, ◌↔◌, ◌⊎◌,
  Bool-cases,
}

module _ {A : Type 0} (less : A → A → Bool) where
  unfoldable pub insert_sorted : A → List A → List A
  insert_sorted x [] = x ∷ []
  insert_sorted x (y ∷ ys) = if less y x then y ∷ insert_sorted x ys else x ∷ y ∷ ys

  unfoldable pub sort : List A → List A
  unfolding insert_sorted
  sort [] = []
  sort (x ∷ xs) = insert_sorted x (sort xs)

  pub In-insert_sorted : (a x : A) (xs : List A) → In a (insert_sorted x xs) ↔ ((a ≡ x) ⊎ In a xs)
  unfolding insert_sorted
  In-insert_sorted a x [] = (λ h. h, λ h. h)
  In-insert_sorted a x (y ∷ ys) = ground (arith, In-insert_sorted a x ys)

  -- Sorting keeps the elements.
  pub In-sort : (a : A) (xs : List A) → In a (sort xs) ↔ In a xs
  unfolding sort
  In-sort a [] = (λ h. h, λ h. h)
  In-sort a (x ∷ xs) = ground (arith, In-insert_sorted a x (sort xs), In-sort a xs)

  module _ {ℓ} (P : A → Type ℓ) where
    pub All-insert_sorted : (x : A) (xs : List A) → P x → All P xs → All P (insert_sorted x xs)
    unfolding insert_sorted
    All-insert_sorted x [] p h = (p, tt)
    All-insert_sorted x (y ∷ ys) p h = elim (Bool-cases (less y x)) [
      | inl e ↦ rw e (h.0, All-insert_sorted x ys p h.1)
      | inr e ↦ rw e (p, h)
    ]

    pub All-sort : (xs : List A) → All P xs → All P (sort xs)
    unfolding sort
    All-sort [] h = h
    All-sort (x ∷ xs) h = All-insert_sorted x (sort xs) h.0 (All-sort xs h.1)

unfoldable pub sort_strings : List Bytes → List Bytes
unfolding sort bytes_ltb
sort_strings = sort bytes_ltb
