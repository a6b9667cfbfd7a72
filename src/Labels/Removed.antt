-- ===== src/Labels/Removed.antt =====
-- The applied-keys record: what `RemovedKeys` reads out of two `JoinKeys` values.
use mosquitto_operator.Base.{
  ◌≡◌, refl, ◌≢◌, ◌↔◌, List, [], ◌∷◌, arith, Bytes, bytes_ltb, bytes_discrete, In, All,
}
use mosquitto_operator.Base.Dict.{Dict, keys, In-member, member-In}
use mosquitto_operator.Base.Sort.{sort_strings, In-sort, All-sort}
use mosquitto_operator.Base.Strings.{Lacks, split, join, split-join}
use mosquitto_operator.Labels.Defs.{join_keys, removed_keys, not_kept}

-- What the API server makes sure of for a label or annotation key.
abbrev pub IsKey : Bytes → Type 0
IsKey k = (k ≢ []) × Lacks b',' k

In-not_kept : (k : Bytes) (kept ks : List Bytes) → In k (not_kept kept ks) ↔ (In k ks × ¬ In k kept)
unfolding not_kept
In-not_kept k kept [] = ground arith
In-not_kept k kept (j ∷ ks) = ground (
  arith,
  In-not_kept k kept ks,
  In-member k kept,
  member-In k kept,
  In-member j kept,
  member-In j kept,
)

-- The keys in order are a list of keys again.
All-keys : (m : Dict Bytes) → All IsKey (keys m) → All IsKey (sort_strings (keys m))
unfolding sort_strings
All-keys m = All-sort bytes_ltb IsKey (keys m)

Lacks-keys : (ks : List Bytes) → All IsKey ks → All (Lacks b',') ks
Lacks-keys [] h = tt
Lacks-keys (k ∷ ks) h = (h.0.1, Lacks-keys ks h.1)

join-ne-nil : (k : Bytes) (ks : List Bytes) → k ≢ [] → join (k ∷ ks) b',' ≢ []
unfolding join
join-ne-nil [] ks h = absurd (h refl)
join-ne-nil (c ∷ k) [] h = cc
join-ne-nil (c ∷ k) (j ∷ ks) h = cc

-- Reading a record back gives its keys, and for no key the empty text.
In-split-join :
    (k : Bytes) (ks : List Bytes)
    → k ≢ []
    → All IsKey ks
    → In k (split (join ks b',') b',') ↔ In k ks
In-split-join k [] ne h = unfold split join in (λ e. ground arith, λ e. absurd e)
In-split-join k (j ∷ ks) ne h = rw (split-join b',' j ks (Lacks-keys (j ∷ ks) h)) (λ e. e, λ e. e)

removed_keys_of_ne :
    (previous current : Bytes)
    → previous ≢ []
    → removed_keys previous current ≡ not_kept (split current b',') (split previous b',')
unfolding removed_keys
removed_keys_of_ne previous current h = ground arith

removed_keys-join :
    (k : Bytes) (ps cs : List Bytes)
    → k ≢ []
    → All IsKey ps
    → All IsKey cs
    → In k (removed_keys (join ps b',') (join cs b',')) ↔ (In k ps × ¬ In k cs)
unfolding removed_keys
removed_keys-join k [] cs ne hp hc = unfold join bytes_discrete in ground arith
removed_keys-join k (p ∷ ps) cs ne hp hc =
    let kept = split (join cs b',') b',' in
    let all = split (join (p ∷ ps) b',') b',' in
    rw (removed_keys_of_ne _ (join cs b',') (join-ne-nil p ps hp.0.0)) (
      ground
        (arith, In-not_kept k kept all, In-split-join k (p ∷ ps) ne hp, In-split-join k cs ne hc))

-- The keys that an update removes are exactly those that the record of the live object lists and
-- the record of the desired object does not, for maps whose keys are not empty and hold no comma.
pub removed_keys-join_keys :
    (k : Bytes) (previous current : Dict Bytes)
    → k ≢ []
    → All IsKey (keys previous)
    → All IsKey (keys current)
    → In k (removed_keys (join_keys previous) (join_keys current))
      ↔ (In k (keys previous) × ¬ In k (keys current))
unfolding join_keys sort_strings
removed_keys-join_keys k previous current ne hp hc =
    let ps = sort_strings (keys previous) in
    let cs = sort_strings (keys current) in
    ground (
      arith,
      removed_keys-join k ps cs ne (All-keys previous hp) (All-keys current hc),
      In-sort bytes_ltb k (keys previous),
      In-sort bytes_ltb k (keys current),
    )
