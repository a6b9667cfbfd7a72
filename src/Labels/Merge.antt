-- ===== src/Labels/Merge.antt =====
-- What merging labels keeps and overrides, and what `MapEntriesMissing` compares.
use mosquitto_operator.Base.{◌≡◌, refl, ◌↔◌, false, Option, none, some, [], ◌∷◌, arith, Bytes, In}
use mosquitto_operator.Base.Dict.{
  Dict, lookup, get_or, keys, NodupKeys, or_else, lookup-insert_all, get_or-lookup,
}
use mosquitto_operator.Api.{Mosquitto}
use mosquitto_operator.Labels.Defs.{merge_labels, map_entries_missing, base_labels, selector_labels}

or_else-none {ℓ} : {V : Type ℓ} (o : Option V) → or_else o none ≡ o
or_else-none none = refl
or_else-none (some v) = refl

-- Every key of the overlay carries the overlay's value, every other key that of the base.
pub lookup-merge_labels :
    (k : Bytes) (base overlay : Dict Bytes)
    → lookup k (merge_labels base overlay) ≡ or_else (lookup k overlay) (lookup k base)
unfolding merge_labels lookup
lookup-merge_labels k base overlay = simp (lookup-insert_all, or_else-none)

-- Some desired entry is absent or has another value.
abbrev pub Carries : Dict Bytes → Dict Bytes → Type 0
Carries current desired = (k v : Bytes) → lookup k desired ≡ some v → get_or k [] current ≡ v

pub lookup-keys : (k v : Bytes) (m : Dict Bytes) → lookup k m ≡ some v → In k (keys m)
unfolding lookup keys
lookup-keys k v [] h = cc
lookup-keys k v ((j, w) ∷ m) h = ground (arith, lookup-keys k v m)

missing-lookup :
    (desired current : Dict Bytes) (k v : Bytes)
    → map_entries_missing desired current ≡ false
    → lookup k desired ≡ some v
    → get_or k [] current ≡ v
unfolding map_entries_missing lookup
missing-lookup [] current k v h e = cc
missing-lookup ((j, w) ∷ desired) current k v h e =
    ground (arith, missing-lookup desired current k v)

Carries-missing :
    (desired current : Dict Bytes)
    → NodupKeys desired
    → Carries current desired
    → map_entries_missing desired current ≡ false
unfolding map_entries_missing lookup
Carries-missing [] current n h = refl
Carries-missing ((j, w) ∷ desired) current n h = ground (
  arith,
  h j w,
  Carries-missing desired current n.1 λ k v e. ground (arith, h k v, lookup-keys k v desired),
)

-- `MapEntriesMissing` says "nothing to write" exactly when every desired key reads back, with Go's
-- default of the empty string, the desired value. Desired keys are distinct, as in every map.
pub map_entries_missing_iff :
    (desired current : Dict Bytes)
    → NodupKeys desired
    → (map_entries_missing desired current ≡ false) ↔ Carries current desired
map_entries_missing_iff desired current n =
    (λ h k v. missing-lookup desired current k v h, Carries-missing desired current n)

pub merge_labels-Carries : (base overlay : Dict Bytes) → Carries (merge_labels base overlay) overlay
merge_labels-Carries base overlay k v e =
    ground
      (arith, get_or-lookup k [] (merge_labels base overlay), lookup-merge_labels k base overlay)

-- After a merge nothing is missing, so the next pass writes nothing.
pub merge_labels_settles :
    (current desired : Dict Bytes)
    → NodupKeys desired
    → map_entries_missing desired (merge_labels current desired) ≡ false
merge_labels_settles current desired n =
    Carries-missing desired _ n (merge_labels-Carries current desired)

-- Whatever labels the user sets on the pods, the selector of the Services, of the StatefulSet and
-- of the anti-affinity term matches them.
pub selector_labels_match :
    (m : Mosquitto) (user : Dict Bytes) (image k v : Bytes)
    → lookup k (selector_labels m) ≡ some v
    → lookup k (merge_labels user (base_labels m image)) ≡ some v
unfolding lookup selector_labels base_labels
selector_labels_match m user image k v h =
    ground (arith, lookup-merge_labels k user (base_labels m image))
