-- ===== src/Controller/Settled.antt =====
-- Reconciling an object a second time (internal/controller/mosquitto_controller.go).
use mosquitto_operator.Base.{
  ◌≡◌, refl, ap, inl, inr, true, false, Option, none, some, [], ◌∷◌, Bytes, =?_refl, Bool-cases,
  Option-cases, arith,
}
use mathlib.Core.Logic.{ite}
use mathlib.Core.Bool.{false≢true}
use mosquitto_operator.Base.Dict.{Dict, lookup, NodupKeys, get_or-lookup}
use mosquitto_operator.Base.Results.{Result, ok, err, Error}
use mosquitto_operator.Api.{Mosquitto}
use mosquitto_operator.Builder.Objects.{StatefulSet}
use mosquitto_operator.Builder.StatefulSets.{stateful_set_has_changed}
use mosquitto_operator.Builder.Updates
use mosquitto_operator.Builder.Updates.{merge_stateful_set_settles, replicas_differ_refl}
use mosquitto_operator.Labels.Merge.{lookup-keys, merge_labels_settles, map_entries_missing_iff}
use mosquitto_operator.Labels.{map_entries_missing}
use mosquitto_operator.Controller.Cluster.{
  Key, Kind, config_map, service, stateful_set, secret, Content, Stored, Cluster, Call, put,
  put_self,
}
use mosquitto_operator.Controller.Exec.{Outside, State, Pass, ask, tell}
use mosquitto_operator.Controller.Objects.{
  entries_in, deep_equal, ports_discrete, agrees, updated, is_controlled_by, ensure_owned, owned,
  set_controller, create, update, renew, write_over, ensure, key_of,
}
use mosquitto_operator.Controller.Within.{ask_cases, tell_cases, traced}

-- The maps of a desired object have each key once, as every Go map.
abbrev pub HasMaps : (k : Kind) → Content k → Type 0
HasMaps config_map c = NodupKeys c.texts × NodupKeys c.labels
HasMaps service c = NodupKeys c.selector × NodupKeys c.labels
HasMaps stateful_set c = Updates.HasMaps c
HasMaps secret c = NodupKeys c.files × NodupKeys c.labels

-- The lookups of the first map are those of the second.
entries_in-lookups :
    (a b : Dict Bytes)
    → NodupKeys a
    → ((k v : Bytes) → lookup k a ≡ some v → lookup k b ≡ some v)
    → entries_in a b ≡ true
unfolding entries_in lookup
entries_in-lookups [] b n h = refl
entries_in-lookups ((k, v) ∷ a) b n h =
    ground
      (arith, h k v, entries_in-lookups a b n.1 λ j w e. ground (arith, h j w, lookup-keys j w a))

deep_equal_refl : (a : Dict Bytes) → NodupKeys a → deep_equal a a ≡ true
unfolding deep_equal
deep_equal_refl a n = rw (entries_in-lookups a a n (λ k v e. e)) refl

not_missing_refl : (a : Dict Bytes) → NodupKeys a → map_entries_missing a a ≡ false
not_missing_refl a n =
    (map_entries_missing_iff a a n).1 (λ k v e. rw (get_or-lookup k [] a, e) refl)

pub ite_yes : {P : Type 0} (d : Dec P) → P → ite d true false ≡ true
ite_yes (yes p) q = refl
ite_yes (no n) q = absurd (n q)

unchanged_refl : (c : StatefulSet) → Updates.HasMaps c → stateful_set_has_changed c c ≡ false
unfolding stateful_set_has_changed
unchanged_refl c h =
    rw
      (
        replicas_differ_refl c.replicas,
        not_missing_refl c.labels h.of_labels,
        not_missing_refl c.annotations h.of_annotations,
        not_missing_refl c.template.labels h.of_template_labels,
        not_missing_refl c.template.annotations h.of_template_annotations,
      )
      refl

-- What is created agrees with what is desired, and so does what an update writes.
desired-agrees : (k : Kind) (c : Content k) → HasMaps k c → agrees k c c ≡ true
unfolding agrees
desired-agrees config_map c h = rw (deep_equal_refl c.texts h.0, not_missing_refl c.labels h.1) refl
desired-agrees service c h =
    rw
      (
        ite_yes (ports_discrete c.ports c.ports) refl,
        deep_equal_refl c.selector h.0,
        not_missing_refl c.labels h.1,
      )
      refl
desired-agrees secret c h = rw (deep_equal_refl c.files h.0, not_missing_refl c.labels h.1) refl
desired-agrees stateful_set c h = rw (unchanged_refl c h) refl

updated-agrees :
    (k : Kind) (current desired : Content k)
    → HasMaps k desired
    → agrees k (updated k current desired) desired ≡ true
unfolding agrees updated
updated-agrees config_map current d h =
    rw (deep_equal_refl d.texts h.0, merge_labels_settles current.labels d.labels h.1) refl
updated-agrees service current d h =
    rw
      (
        ite_yes (ports_discrete d.ports d.ports) refl,
        deep_equal_refl d.selector h.0,
        merge_labels_settles current.labels d.labels h.1,
      )
      refl
updated-agrees secret current d h =
    rw (deep_equal_refl d.files h.0, merge_labels_settles current.labels d.labels h.1) refl
updated-agrees stateful_set current d h = rw (merge_stateful_set_settles current d h) refl

-- The object is there, belongs to the owner, and is as it is to be.
pub record IsSettled (k : Kind) (m : Mosquitto) (desired : Content k) (c : Cluster) : Type 0 where
  pub current : Stored k
  pub is_stored : c.objects k (key_of k desired) ≡ some current
  pub is_owned : is_controlled_by current m ≡ true
  pub is_agreed : agrees k current.content desired ≡ true

pub err_not_ok : {V : Type 0} {e : Error} {v : V} → ◌≡◌ {A = Result V} (err e) (ok v) → ⊥
err_not_ok h = false≢true (ap (λ r. elim r [ err e ↦ false | ok v ↦ true ]) h)

module _ (o : Outside) (k : Kind) (m : Mosquitto) (desired : Content k)
    (h : HasMaps k desired) where
  open o use {owner_fault, crypto}
  open crypto use {Reader}

  abbrev stored : Stored k
  stored = record { controller = some m.meta.uid; content = desired }

  abbrev written : Stored k → Cluster → Cluster
  written obj c = record c { objects = put k (key_of k desired) obj c.objects }

  told-IsSettled :
      (call : Call) (obj : Stored k) (s : State Reader)
      → is_controlled_by obj m ≡ true
      → agrees k obj.content desired ≡ true
      → (tell o call (written obj) s).0 ≡ ok tt
      → IsSettled k m desired (tell o call (written obj) s).1.cluster
  told-IsSettled call obj s own agreed = elim (tell_cases o call (written obj) s) [
    | inl t ↦ rw t (λ _. record {
      current = obj;
      is_stored = put_self k (key_of k desired) obj s.cluster.objects;
      is_owned = own;
      is_agreed = agreed;
    })
    | inr (y, t) ↦ rw t (λ bad. absurd (err_not_ok bad))
  ]

  renewed-IsSettled :
      (current : Stored k) (s : State Reader)
      → s.cluster.objects k (key_of k desired) ≡ some current
      → is_controlled_by current m ≡ true
      → (renew o k stored current s).0 ≡ ok tt
      → IsSettled k m desired (renew o k stored current s).1.cluster
  unfolding renew update
  renewed-IsSettled current s e own = elim (Bool-cases (agrees k current.content desired)) [
    | inl q ↦ rw q (λ _. record { current = current; is_stored = e; is_owned = own; is_agreed = q })
    | inr q ↦ rw q (
        told-IsSettled (Call.update k (key_of k desired))
          (record current { content = updated k current.content desired }) s own
          (updated-agrees k current.content desired h))
  ]

  written-IsSettled :
      (x : Option (Stored k)) (s : State Reader)
      → s.cluster.objects k (key_of k desired) ≡ x
      → (write_over o k m stored x s).0 ≡ ok tt
      → IsSettled k m desired (write_over o k m stored x s).1.cluster
  unfolding write_over create ensure_owned
  written-IsSettled none s e =
      told-IsSettled (Call.create k (key_of k desired)) stored s (=?_refl m.meta.uid)
        (desired-agrees k desired h)
  written-IsSettled (some current) s e = elim (Bool-cases (is_controlled_by current m)) [
    | inl q ↦ rw q (renewed-IsSettled current s e q)
    | inr q ↦ rw q (λ bad. absurd (err_not_ok bad))
  ]

  -- Where the object is settled, what follows on its read does nothing.
  settled-write_over :
      (s : State Reader) (i : IsSettled k m desired s.cluster)
      → write_over o k m stored (s.cluster.objects k (key_of k desired)) s ≡ (ok tt, s)
  unfolding write_over ensure_owned renew
  settled-write_over s i = rw (i.is_stored, i.is_owned, i.is_agreed) refl

  abbrev get : (Key → Call) → Key → Pass o (Option (Stored k))
  get call key = ask o (call key) (λ c. c.objects k key)

  pub ensured-IsSettled :
      (call : Key → Call) (s : State Reader)
      → (ensure o k (get call) m desired s).0 ≡ ok tt
      → (owner_fault k (key_of k desired) ≡ none)
        × IsSettled k m desired (ensure o k (get call) m desired s).1.cluster
  unfolding ensure set_controller owned
  ensured-IsSettled call s = elim (Option-cases (owner_fault k (key_of k desired))) [
    | inr (x, q) ↦ rw q (λ bad. absurd (err_not_ok bad))
    | inl q ↦
        rw q (elim (ask_cases o (call (key_of k desired)) (λ c. c.objects k (key_of k desired)) s) [
          | inl t ↦ rw t (λ done. (
            refl,
            written-IsSettled (s.cluster.objects k (key_of k desired))
                (traced o (call (key_of k desired)) s) refl done,
          ))
          | inr (y, t) ↦ rw t (λ bad. absurd (err_not_ok bad))
        ])
  ]

  settled-ensure :
      (call : Key → Call) (s : State Reader)
      → owner_fault k (key_of k desired) ≡ none
      → IsSettled k m desired s.cluster
      → (ensure o k (get call) m desired s).1 ≡ traced o (call (key_of k desired)) s
  unfolding ensure set_controller owned
  settled-ensure call s q i =
      rw q (elim (ask_cases o (call (key_of k desired)) (λ c. c.objects k (key_of k desired)) s) [
        | inl t ↦ rw (t, settled-write_over (traced o (call (key_of k desired)) s) i) refl
        | inr (y, t) ↦ rw t refl
      ])

-- Once an object is reconciled without an error, the next time its reconciliation reads the object and does
-- nothing else, if nothing changed in between, whatever calls fail then. The maps of the desired object have
-- each key once.
pub ensure_settles :
    (o : Outside) (k : Kind) (call : Key → Call) (m : Mosquitto) (desired : Content k)
    (s t : State o.crypto.Reader)
    → HasMaps k desired
    → (ensure o k (λ key. ask o (call key) (λ c. c.objects k key)) m desired s).0 ≡ ok tt
    → t.cluster
      ≡ (ensure o k (λ key. ask o (call key) (λ c. c.objects k key)) m desired s).1.cluster
    → (ensure o k (λ key. ask o (call key) (λ c. c.objects k key)) m desired t).1
      ≡ traced o (call (key_of k desired)) t
ensure_settles o k call m desired s t h done same =
    let x = ensured-IsSettled o k m desired h call s done in
    settled-ensure o k m desired h call t x.0 (rw same x.1)
