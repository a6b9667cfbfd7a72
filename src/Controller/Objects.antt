-- ===== src/Controller/Objects.antt =====
-- internal/controller/mosquitto_controller.go: the objects that a Mosquitto owns. The functions of
-- the source that reconcile a kind of object share their shape, which is `ensure`; each gives its
-- test for a difference and its merge.
use mosquitto_operator.Base.{
  Bool, true, false, not, ◌&&◌, Option, none, some, List, [], ◌∷◌, Bytes, codes, ◌=?◌,
  if◌then◌else◌, bytes_discrete,
}
use native.Mathlib.Decide.{ℕ_discrete}
use mathlib.Core.Logic.{ite}
use mosquitto_operator.Base.Dict.{Dict, lookup}
use mosquitto_operator.Base.Results.{Result, ok, err, Error, new, wrapped, Message}
use mosquitto_operator.Api.{Mosquitto}
use mosquitto_operator.Labels.{merge_labels, map_entries_missing}
use mosquitto_operator.Builder.Objects.{Service, ServicePort}
use mosquitto_operator.Builder.Services.{build_config_map, build_auth_secret}
use mosquitto_operator.Builder.StatefulSets.{
  build_stateful_set, stateful_set_has_changed, merge_stateful_set,
}
use mosquitto_operator.Controller.Cluster.{
  Key, Kind, config_map, service, stateful_set, secret, Content, Stored, Call, put,
}
use mosquitto_operator.Controller.Exec.{⊤, Outside, pure, lift, ◌>>=◌, ◌>>◌, Pass, ask, tell}

abbrev pub message : Bytes → List Bytes → Message
message format args = record { format = format; args = args }

-- The configuration of the reconciler.
pub record Reconciler : Type 0 where
  pub secret_security : Bool
  pub reloader_image : Bytes
  pub secret_namespaces : List Bytes

-- `metav1.IsControlledBy`
abbrev pub is_controlled_by : {k : Kind} → Stored k → Mosquitto → Bool
is_controlled_by obj m = elim obj.controller [ none ↦ false | some uid ↦ uid =? m.meta.uid ]

abbrev pub kind_text : Kind → Bytes
kind_text config_map = codes "ConfigMap"
kind_text service = codes "Service"
kind_text stateful_set = codes "StatefulSet"
kind_text secret = codes "Secret"

abbrev pub key_of : (k : Kind) → Content k → Key
key_of config_map c = record { namespace = c.namespace; name = c.name }
key_of service c = record { namespace = c.namespace; name = c.name }
key_of stateful_set c = record { namespace = c.namespace; name = c.name }
key_of secret c = record { namespace = c.namespace; name = c.name }

-- Every entry of the first map is an entry of the second.
unfoldable pub entries_in : Dict Bytes → Dict Bytes → Bool
entries_in [] b = true
entries_in ((k, v) ∷ a) b = elim (lookup k b) [ none ↦ false | some w ↦ v =? w ] && entries_in a b

-- `equality.Semantic.DeepEqual` of two maps: a map that is nil is an empty one.
unfoldable pub deep_equal : Dict Bytes → Dict Bytes → Bool
unfolding entries_in
deep_equal a b = entries_in a b && entries_in b a

unfoldable pub ports_discrete : Discrete (List ServicePort)
ports_discrete = hlevel (bytes_discrete, ℕ_discrete)

-- The condition on which a live object is left as it is, and what an update writes into it.
unfoldable pub agrees : (k : Kind) → Content k → Content k → Bool
agrees config_map current desired =
    deep_equal current.texts desired.texts
    && not (map_entries_missing desired.labels current.labels)
agrees service current desired =
    ite (ports_discrete current.ports desired.ports) true false
    && (deep_equal current.selector desired.selector
        && not (map_entries_missing desired.labels current.labels))
agrees stateful_set current desired = not (stateful_set_has_changed desired current)
agrees secret current desired =
    deep_equal current.files desired.files
    && not (map_entries_missing desired.labels current.labels)

unfoldable pub updated : (k : Kind) → Content k → Content k → Content k
updated config_map current desired = record current {
  texts = desired.texts;
  labels = merge_labels current.labels desired.labels;
}
updated service current desired = record current {
  ports = desired.ports;
  selector = desired.selector;
  labels = merge_labels current.labels desired.labels;
}
updated stateful_set current desired = merge_stateful_set current desired
updated secret current desired = record current {
  files = desired.files;
  labels = merge_labels current.labels desired.labels;
}

-- `ensureOwned`
unfoldable pub ensure_owned : (k : Kind) → Key → Stored k → Mosquitto → Option Error
ensure_owned k key obj m =
    if is_controlled_by obj m
    then none
    else some (
        new (
          message (codes "%s %s/%s exists and is not owned by this Mosquitto")
            (kind_text k ∷ key.namespace ∷ key.name ∷ [])))

-- An error, or nothing.
abbrev pub unless : Option Error → Result ⊤
unless none = ok tt
unless (some e) = err e

unfoldable pub owned : (k : Kind) → Mosquitto → Content k → Option Error → Result (Stored k)
owned k m desired none = ok (record { controller = some m.meta.uid; content = desired })
owned k m desired (some e) = err (
    wrapped
      (message (codes "setting owner reference on %s %s: %w")
        (kind_text k ∷ (key_of k desired).name ∷ []))
      e)

module _ (o : Outside) where
  open o use {owner_fault, encodings}

  -- `Get` through the cache, and through the uncached reader.
  unfoldable pub fetch : (k : Kind) → Key → Pass o (Option (Stored k))
  fetch k key = ask o (Call.fetch k key) (λ c. c.objects k key)

  unfoldable pub read : (k : Kind) → Key → Pass o (Option (Stored k))
  read k key = ask o (Call.read k key) (λ c. c.objects k key)

  unfoldable pub create : (k : Kind) → Key → Stored k → Pass o ⊤
  create k key obj =
      tell o (Call.create k key) (λ c. record c { objects = put k key obj c.objects })

  unfoldable pub update : (k : Kind) → Key → Stored k → Pass o ⊤
  update k key obj =
      tell o (Call.update k key) (λ c. record c { objects = put k key obj c.objects })

  -- `SetControllerReference` on an object that has no owner.
  unfoldable pub set_controller : (k : Kind) → Mosquitto → Content k → Result (Stored k)
  unfolding owned
  set_controller k m desired = owned k m desired (owner_fault k (key_of k desired))

  unfoldable pub renew : (k : Kind) → Stored k → Stored k → Pass o ⊤
  renew k desired current =
      if agrees k current.content desired.content
      then pure tt
      else update k (key_of k desired.content)
          (record current { content = updated k current.content desired.content })

  -- What follows on the read of the live object.
  unfoldable pub write_over : (k : Kind) → Mosquitto → Stored k → Option (Stored k) → Pass o ⊤
  write_over k m desired none = create k (key_of k desired.content) desired
  write_over k m desired (some current) =
      lift (unless (ensure_owned k (key_of k desired.content) current m)) >> renew k desired current

  unfoldable pub ensure :
      (k : Kind) → (Key → Pass o (Option (Stored k))) → Mosquitto → Content k → Pass o ⊤
  ensure k get m desired = do
    stored ← lift (set_controller k m desired)
    current ← get (key_of k desired)
    write_over k m stored current

  unfoldable pub reconcile_config_map : Mosquitto → Pass o ⊤
  reconcile_config_map m = ensure config_map (fetch config_map) m (build_config_map m)

  unfoldable pub reconcile_service : Mosquitto → Service → Pass o ⊤
  reconcile_service m desired = ensure service (fetch service) m desired

  unfoldable pub reconcile_stateful_set : Reconciler → Mosquitto → Pass o ⊤
  reconcile_stateful_set r m = do
    desired ← lift (build_stateful_set encodings m (record { reloader_image = r.reloader_image }))
    ensure stateful_set (fetch stateful_set) m desired

  -- The Secret is read without the cache.
  unfoldable pub reconcile_auth_secret : Mosquitto → Dict Bytes → Pass o ⊤
  reconcile_auth_secret m files = ensure secret (read secret) m (build_auth_secret m files)
