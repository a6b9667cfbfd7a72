-- ===== src/Builder/Updates.antt =====
-- What an update of the StatefulSet writes, keeps and removes.
use mosquitto_operator.Base.{
  ◌≡◌, refl, sym, ap, ◌⊎◌, inl, inr, false, Option, none, some, List, [], Bytes, ◌=?◌,
  if◌then◌else◌, arith, Bool-cases,
}
use mosquitto_operator.Base.Dict.{Dict, lookup, member, NodupKeys, or_else, lookup-erase_all}
use mosquitto_operator.Base.Results.{ok, err, ◌>>=◌, >>=-eq-ok}
use mosquitto_operator.Api.{Mosquitto}
use mosquitto_operator.Labels.{base_labels, merge_labels}
use mosquitto_operator.Labels.Merge.{
  lookup-merge_labels, merge_labels_settles, selector_labels_match,
}
use mosquitto_operator.Builder.Objects.{StatefulSet}
use mosquitto_operator.Builder.Pods.{PodOptions, resolve_image}
use mosquitto_operator.Builder.Services.{build_headless_service, build_client_service}
use mosquitto_operator.Builder.StatefulSets.{
  Encodings, annotation_applied_pod_labels, annotation_applied_pod_annotations, stateful_set_claims,
  desired_stateful_set, build_stateful_set, replicas_differ, stateful_set_has_changed, without_keys,
  left_keys, merge_stateful_set,
}

lookup-without_keys :
    (k : Bytes) (m : Dict Bytes) (ks : List Bytes)
    → lookup k (without_keys m ks) ≡ (if member k ks then none else lookup k m)
unfolding without_keys lookup
lookup-without_keys k m ks =
    ground (arith, lookup-erase_all k ks (merge_labels m []), lookup-merge_labels k m [])

pub replicas_differ_refl : (o : _) → replicas_differ o o ≡ false
unfolding replicas_differ
replicas_differ_refl none = refl
replicas_differ_refl (some n) = ground arith

-- Every Go map has each key once.
pub record HasMaps (s : StatefulSet) : Type 0 where
  pub of_labels : NodupKeys s.labels
  pub of_annotations : NodupKeys s.annotations
  pub of_template_labels : NodupKeys s.template.labels
  pub of_template_annotations : NodupKeys s.template.annotations

-- After `MergeStatefulSet` has written a desired StatefulSet into the live one,
-- `StatefulSetHasChanged` finds no difference, whatever the live one held: updates do not loop.
pub merge_stateful_set_settles :
    (current desired : StatefulSet)
    → HasMaps desired
    → stateful_set_has_changed desired (merge_stateful_set current desired) ≡ false
unfolding stateful_set_has_changed merge_stateful_set
merge_stateful_set_settles current desired h =
    rw
      (
        replicas_differ_refl desired.replicas,
        merge_labels_settles current.labels desired.labels h.of_labels,
        merge_labels_settles current.annotations desired.annotations h.of_annotations,
        merge_labels_settles
            (without_keys current.template.labels
              (left_keys annotation_applied_pod_labels current desired))
            desired.template.labels h.of_template_labels,
        merge_labels_settles
            (without_keys current.template.annotations
              (left_keys annotation_applied_pod_annotations current desired))
            desired.template.annotations h.of_template_annotations,
      )
      refl

-- The value of a key after an update: the desired one, else none for a key that left the
-- recorded ones, else the live one.
abbrev pub updated : Bytes → List Bytes → Dict Bytes → Dict Bytes → Option Bytes
updated k left current desired =
    or_else (lookup k desired) (if member k left then none else lookup k current)

-- A key of the pod template after `MergeStatefulSet` has the desired value where there is one;
-- else it is gone if the live record of applied keys lists it and the desired record does not;
-- else it keeps the live value. This holds of the labels and of the annotations, each with its
-- own record.
pub merge_stateful_set_keys :
    (current desired : StatefulSet) (k : Bytes)
    → (lookup k (merge_stateful_set current desired).template.labels
        ≡ updated k
            (left_keys annotation_applied_pod_labels current desired)
            current.template.labels
            desired.template.labels)
      × (lookup k (merge_stateful_set current desired).template.annotations
          ≡ updated k
              (left_keys annotation_applied_pod_annotations current desired)
              current.template.annotations
              desired.template.annotations)
unfolding merge_stateful_set
merge_stateful_set_keys current desired k = (
  one (left_keys annotation_applied_pod_labels current desired) current.template.labels
      desired.template.labels,
  one (left_keys annotation_applied_pod_annotations current desired) current.template.annotations
      desired.template.annotations,
)
  where
    one :
        (left : List Bytes) (a b : Dict Bytes)
        → lookup k (merge_labels (without_keys a left) b) ≡ updated k left a b
    one left a b =
        rw (lookup-merge_labels k (without_keys a left) b, lookup-without_keys k a left) refl

ok-injective : (a b : StatefulSet) → ok a ≡ ok b → a ≡ b
ok-injective a b h = cc

built :
    (e : Encodings) (m : Mosquitto) (opts : PodOptions) (s : StatefulSet)
    → build_stateful_set e m opts ≡ ok s
    → s.template.labels ≡ merge_labels m.spec.pod_labels (base_labels m (resolve_image m))
unfolding build_stateful_set desired_stateful_set
built e m opts s h = elim (Bool-cases (opts.reloader_image =? [])) [
  | inl q ↦ absurd (refused (rw q at h))
  | inr q ↦ labels_of (rw q at h)
]
  where
    refused : {x : _} → ¬ (err x ≡ ok s)
    refused r = cc

    labels_of :
        (stateful_set_claims e m >>= (λ claims. ok (desired_stateful_set e m opts claims))) ≡ ok s
        → s.template.labels ≡ merge_labels m.spec.pod_labels (base_labels m (resolve_image m))
    labels_of r =
        let p =
          >>=-eq-ok (stateful_set_claims e m) (λ claims. ok (desired_stateful_set e m opts claims))
            r in
        ap (λ t. t.template.labels) (sym (ok-injective (desired_stateful_set e m opts p.0) s p.2))

-- The pods of a StatefulSet that `BuildStatefulSet` made, merged into whatever was live, carry
-- every label of the selector of both Services, whatever spec.podLabels says.
pub services_select_pods :
    (e : Encodings) (m : Mosquitto) (opts : PodOptions) (current desired : StatefulSet)
    (k v : Bytes)
    → build_stateful_set e m opts ≡ ok desired
    → (lookup k (build_client_service m).selector ≡ some v)
      ⊎ (lookup k (build_headless_service m).selector ≡ some v)
    → lookup k (merge_stateful_set current desired).template.labels ≡ some v
unfolding build_client_service build_headless_service
services_select_pods e m opts current desired k v b h = ground (
  arith,
  built e m opts desired b,
  merge_stateful_set_keys current desired k,
  selector_labels_match m m.spec.pod_labels (resolve_image m) k v,
)
