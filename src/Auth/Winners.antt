-- ===== src/Auth/Winners.antt =====
-- Collisions: one winner to a user name, and it is the oldest.
use mosquitto_operator.Base.{
  ◌<◌, bytes_ltb, ◌≡◌, ◌≢◌, refl, sym, ap, All-In, In-All, bytes_discrete, ◌⊎◌, inl, inr, false,
  none, List, [], ◌∷◌, arith, Bytes, In, All, Option-cases,
}
use mathlib.Core.Option.{some-ne-none}
use mosquitto_operator.Base.Dict.{Dict, lookup, insert, lookup-insert}
use mosquitto_operator.Base.Sort.{sort, In-sort, All-sort}
use mosquitto_operator.Base.Sorted.{IsOrder, IsSorted, sort-IsSorted, bytes_ltb-IsOrder}
use mosquitto_operator.Auth.Defs.{Input, Verdict, check}
use mosquitto_operator.Auth.Render.{check_all, older, resolve, resolve_collisions}

abbrev pub HaveDistinctNames : List Input → Type 0
HaveDistinctNames [] = Unit
HaveDistinctNames (i ∷ is) = All (λ j. j.username ≢ i.username) is × HaveDistinctNames is

-- None of the names is held.
abbrev AreFree : Dict Bytes → List Input → Type 0
AreFree holders = All (λ i. lookup i.username holders ≡ none)

free_after_insert :
    (i : Input) (holders : Dict Bytes) (ws : List Input)
    → AreFree (insert i.username i.name holders) ws
    → AreFree holders ws × All (λ j. j.username ≢ i.username) ws
free_after_insert i holders [] h = (tt, tt)
free_after_insert i holders (w ∷ ws) h =
    ground (
      arith,
      lookup-insert w.username i.username i.name holders,
      free_after_insert i holders ws h.1,
    )

resolve-distinct :
    (is : List Input) (holders : Dict Bytes) (verdicts : Dict Verdict)
    → HaveDistinctNames (resolve is holders verdicts).0
      × AreFree holders (resolve is holders verdicts).0
unfolding resolve
resolve-distinct [] holders verdicts = (tt, tt)
resolve-distinct (i ∷ is) holders verdicts = elim (Option-cases (lookup i.username holders)) [
  | inl free ↦
      let later = insert i.username i.name holders in
      let (distinct, unheld) = resolve-distinct is later verdicts in
      let (still, apart) = free_after_insert i holders (resolve is later verdicts).0 unheld in
      rw (free, resolve) ((apart, distinct), (free, still))
  | inr (holder, held) ↦ rw (held, resolve) (resolve-distinct is holders _)
]

-- The order of collisions: by age, then by object name.
older-IsOrder : IsOrder older
unfolding older
older-IsOrder = record {
  asym = λ a b h. ground (arith, bytes_ltb-IsOrder.asym a.name b.name);
  neg_trans = λ a b c p q. ground (arith, bytes_ltb-IsOrder.neg_trans a.name b.name c.name);
}

-- `w` holds the name of `i` and is not younger.
abbrev pub Holds : Input → Input → Type 0
Holds i w = (w.username ≡ i.username) × (older i w ≡ false)

older_refl : (a : Input) → older a a ≡ false
unfolding older
older_refl a = ground (arith, bytes_ltb-IsOrder.asym a.name a.name)

-- A name that is held once `i` holds its own was held before, or `i` holds it.
taken_later :
    (c i : Input) (holders : Dict Bytes) (ws : List Input)
    → In i ws
    → older c i ≡ false
    → lookup c.username (insert i.username i.name holders) ≢ none
    → (lookup c.username holders ≢ none) ⊎ ((w : Input) × In w ws × Holds c w)
taken_later c i holders ws m o held = elim (bytes_discrete i.username c.username) [
  | yes same ↦ inr (i, m, (same, o))
  | no other ↦ inl (ground (arith, lookup-insert c.username i.username i.name holders))
]

resolve-Holds :
    (c : Input) (is : List Input) (holders : Dict Bytes) (verdicts : Dict Verdict)
    → IsSorted older is
    → In c is
    → (lookup c.username holders ≢ none)
      ⊎ ((w : Input) × In w (resolve is holders verdicts).0 × Holds c w)
unfolding resolve
resolve-Holds c [] holders verdicts s m = absurd m
resolve-Holds c (i ∷ is) holders verdicts s (inl e) =
    elim (Option-cases (lookup i.username holders)) [
      | inl free ↦ inr (
        i,
        rw (free, resolve) (inl refl),
        (ap (λ (x : Input). x.username) (sym e), rw e (older_refl i)),
      )
      | inr (holder, held) ↦ inl (rw (e, held) (some-ne-none holder))
    ]
resolve-Holds c (i ∷ is) holders verdicts s (inr m) =
    elim (Option-cases (lookup i.username holders)) [
      | inr (holder, held) ↦ rw (held, resolve) (resolve-Holds c is holders _ s.1 m)
      | inl free ↦
          let later = insert i.username i.name holders in
          elim (resolve-Holds c is later verdicts s.1 m) [
            | inr (w, at, holds) ↦ inr (w, rw (free, resolve) (inr at), holds)
            | inl held ↦
                taken_later c i holders (resolve (i ∷ is) holders verdicts).0
                  (rw (free, resolve) (inl refl)) (All-In (λ y. older y i ≡ false) c is s.0 m) held
          ]
    ]

pub resolve-All :
    (P : Input → Type 0) (is : List Input) (holders : Dict Bytes) (verdicts : Dict Verdict)
    → All P is
    → All P (resolve is holders verdicts).0
unfolding resolve
resolve-All P [] holders verdicts h = tt
resolve-All P (i ∷ is) holders verdicts h = elim (Option-cases (lookup i.username holders)) [
  | inl free ↦ rw (free, resolve) (h.0, resolve-All P is _ verdicts h.1)
  | inr (holder, held) ↦ rw (held, resolve) (resolve-All P is holders _ h.1)
]

-- The name of `c` is held by `w`, which is not younger: it was created before `c`, or with it and
-- its object name is not behind.
abbrev pub HoldsName : Input → Input → Type 0
HoldsName c w =
    (w.username ≡ c.username)
    × ((w.creation_timestamp < c.creation_timestamp)
        ⊎ ((w.creation_timestamp ≡ c.creation_timestamp) × (bytes_ltb c.name w.name ≡ false)))

Holds-HoldsName : (c w : Input) → Holds c w → HoldsName c w
unfolding older
Holds-HoldsName c w h = ground arith

-- The winners are candidates, one to a user name, and every candidate's name is held by a winner
-- that is not younger than it.
pub record AreOldest (candidates winners : List Input) : Type 0 where
  pub chosen : All (λ w. In w candidates) winners
  pub distinct : HaveDistinctNames winners
  pub oldest : (c : Input) → In c candidates → (w : Input) × In w winners × HoldsName c w

candidate_held :
    (c : Input) (candidates : List Input) (verdicts : Dict Verdict)
    → In c candidates
    → (w : Input) × In w (resolve (sort older candidates) [] verdicts).0 × Holds c w
candidate_held c candidates verdicts m =
    elim (resolve-Holds c (sort older candidates) [] verdicts
      (sort-IsSorted older older-IsOrder candidates) ((In-sort older c candidates).1 m)) [
        | inl held ↦ absurd (unfold lookup in held refl)
        | inr found ↦ found
      ]

-- Collisions are resolved by age: of the candidates with one user name exactly one wins, the
-- oldest by creation time and then by object name.
pub resolve_collisions-AreOldest :
    (candidates : List Input) (verdicts : Dict Verdict)
    → AreOldest candidates (resolve_collisions candidates verdicts).0
unfolding resolve_collisions
resolve_collisions-AreOldest candidates verdicts =
    let sorted = sort older candidates in
    record {
      chosen =
          resolve-All (λ w. In w candidates) sorted [] verdicts
            (In-All (λ w. In w candidates) sorted (λ x m. (In-sort older x candidates).0 m));
      distinct = (resolve-distinct sorted [] verdicts).0;
      oldest = λ c m.
          let held = candidate_held c candidates verdicts m in
          (held.0, held.1, Holds-HoldsName c held.0 held.2);
    }

-- What `check` lets through.
pub check_all-All :
    (P : Input → Type 0) (passes : (i : Input) → check i ≡ none → P i) (is : List Input)
    (verdicts : Dict Verdict)
    → All P (check_all is verdicts).0
unfolding check_all
check_all-All P passes [] verdicts = tt
check_all-All P passes (i ∷ is) verdicts = elim (Option-cases (check i)) [
  | inl e ↦ rw (e, check_all) (passes i e, check_all-All P passes is verdicts)
  | inr (v, e) ↦ rw (e, check_all) (check_all-All P passes is _)
]

pub resolve_collisions-All :
    (P : Input → Type 0) (candidates : List Input) (verdicts : Dict Verdict)
    → All P candidates
    → All P (resolve_collisions candidates verdicts).0
unfolding resolve_collisions
resolve_collisions-All P candidates verdicts h =
    resolve-All P (sort older candidates) [] verdicts (All-sort older P candidates h)
