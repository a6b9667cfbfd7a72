-- ===== src/Operator/Grants.antt =====
-- The namespaces whose Secrets the operator may use: by its flags, its cache and its reconciler.
use mosquitto_operator.Base.{
  ◌≡◌, refl, sym, ◌∙◌, Bool, true, false, List, [], ◌∷◌, Bytes, ◌=?◌, =?_refl, arith, All,
}
use mosquitto_operator.Base.Dict.{member}
use mosquitto_operator.Base.Runes.{trim_space}
use mosquitto_operator.Base.Strings.{join, Lacks, split-join}
use mosquitto_operator.Controller.Objects.{Reconciler}
use mosquitto_operator.Controller.Passes.{namespace_granted}
use mosquitto_operator.Operator.{
  OperatorFlags, namespaces, kept_namespaces, distinct_namespaces, manager_options, new_reconciler,
}

-- Whether the cache holds the Secrets of a namespace: no namespaces listed are all.
abbrev pub in_cache : List Bytes → Bytes → Bool
in_cache [] namespace = true
in_cache (n ∷ ns) namespace = member namespace (n ∷ ns)

member-distinct_namespaces :
    (n : Bytes) (ns : List Bytes) → member n (distinct_namespaces ns) ≡ member n ns
unfolding distinct_namespaces
member-distinct_namespaces n [] = refl
member-distinct_namespaces n (m ∷ ns) =
    ground (arith, member-distinct_namespaces n ns, member-distinct_namespaces m ns)

in_cache-member :
    (n m : Bytes) (ns others : List Bytes)
    → member m others ≡ true
    → ((k : Bytes) → member k others ≡ member k ns)
    → in_cache others n ≡ member n ns
in_cache-member n m ns [] h same = cc
in_cache-member n m ns (o ∷ others) h same = same n

in_cache-distinct_namespaces :
    (n : Bytes) (ns : List Bytes) → in_cache (distinct_namespaces ns) n ≡ in_cache ns n
in_cache-distinct_namespaces n [] = unfold distinct_namespaces in refl
in_cache-distinct_namespaces n (m ∷ ns) =
    in_cache-member n m (m ∷ ns) (distinct_namespaces (m ∷ ns))
      (member-distinct_namespaces m (m ∷ ns) ∙ rw (=?_refl m) refl)
      (λ k. member-distinct_namespaces k (m ∷ ns))

granted-in_cache :
    (r : Reconciler) (n : Bytes) → namespace_granted r n ≡ in_cache r.secret_namespaces n
unfolding namespace_granted
granted-in_cache r n = of_list r.secret_namespaces
  where
    of_list :
        (ns : List Bytes)
        → (elim ns as (λ _. Bool) [ [] ↦ true | m ∷ ms ↦ member n (m ∷ ms) ]) ≡ in_cache ns n
    of_list [] = refl
    of_list (m ∷ ms) = refl

-- Whatever --secret-namespaces is given, the reconciler takes a namespace for granted exactly when the manager
-- caches its Secrets.
pub cache_covers_grants :
    (f : OperatorFlags) (namespace : Bytes)
    → namespace_granted (new_reconciler f) namespace
      ≡ in_cache (manager_options f).secret_cache namespace
unfolding new_reconciler manager_options
cache_covers_grants f n =
    granted-in_cache (new_reconciler f) n ∙ sym (in_cache-distinct_namespaces n (namespaces f))

-- A name that trimming leaves as it is, not empty and without a comma.
abbrev pub IsName : Bytes → Type 0
IsName n = (trim_space n ≡ n) × ((n =? []) ≡ false) × Lacks b',' n

kept_namespaces-names : (ns : List Bytes) → All IsName ns → kept_namespaces ns ≡ ns
unfolding kept_namespaces
kept_namespaces-names [] h = refl
kept_namespaces-names (n ∷ ns) h = rw (h.0.0, h.0.1, kept_namespaces-names ns h.1) refl

names-Lacks : (ns : List Bytes) → All IsName ns → All (Lacks b',') ns
names-Lacks [] h = tt
names-Lacks (n ∷ ns) h = (h.0.2, names-Lacks ns h.1)

-- With a comma-separated list of names, a namespace is granted exactly when it is one of them.
namespace_granted-join :
    (f : OperatorFlags) (first : Bytes) (others : List Bytes) (namespace : Bytes)
    → All IsName (first ∷ others)
    → f.secret_namespaces ≡ join (first ∷ others) b','
    → namespace_granted (new_reconciler f) namespace ≡ member namespace (first ∷ others)
unfolding namespace_granted new_reconciler namespaces
namespace_granted-join f first others n h e =
    rw
      (
        e,
        split-join b',' first others (names-Lacks (first ∷ others) h),
        kept_namespaces-names (first ∷ others) h,
      )
      refl
