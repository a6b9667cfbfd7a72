-- ===== src/Builder/Applied.antt =====
-- The labels and annotations that leave spec.podLabels and spec.podAnnotations
-- (internal/builder/statefulset.go, internal/common/labels.go).
use mosquitto_operator.Base.{
  ◌≡◌, ◌≢◌, ◌↔◌, refl, subst, ◌∙◌, inl, inr, Bool, true, not, ◌&&◌, Option, none, some, [], Bytes,
  ◌=?◌, if◌then◌else◌, All, arith, Bool-cases, bytes_discrete,
}
use mosquitto_operator.Base.Dict.{
  Dict, lookup, get_or, get_or-lookup, keys, member, In-member, member-In, or_else,
}
use mosquitto_operator.Base.Results.{ok, >>=-eq-ok}
use mosquitto_operator.Api.{Mosquitto}
use mosquitto_operator.Labels.{join_keys, removed_keys}
use mosquitto_operator.Labels.Merge.{merge_labels-Carries}
use mosquitto_operator.Labels.Removed.{IsKey, removed_keys-join_keys}
use mosquitto_operator.Builder.Objects.{StatefulSet}
use mosquitto_operator.Builder.Pods.{PodOptions}
use mosquitto_operator.Builder.StatefulSets.{
  Encodings, annotation_applied_pod_labels, annotation_applied_pod_annotations, stateful_set_claims,
  desired_stateful_set, build_stateful_set, left_keys, merge_stateful_set,
}
use mosquitto_operator.Builder.Updates.{merge_stateful_set_keys}

same_test : (a b : Bool) → (a ≡ true) ↔ (b ≡ true) → a ≡ b
same_test a b h = ground (arith, h)

-- Which keys an update removes, as a test.
member-removed_keys :
    (k : Bytes) (was now : Dict Bytes)
    → k ≢ []
    → All IsKey (keys was)
    → All IsKey (keys now)
    → member k (removed_keys (join_keys was) (join_keys now))
      ≡ (member k (keys was) && not (member k (keys now)))
member-removed_keys k was now ne hw hn =
    let left = removed_keys (join_keys was) (join_keys now) in
    let exact = removed_keys-join_keys k was now ne hw hn in
    same_test (member k left) (member k (keys was) && not (member k (keys now))) (
      ground (
        arith,
        exact,
        member-In k left,
        In-member k left,
        member-In k (keys was),
        In-member k (keys was),
        member-In k (keys now),
        In-member k (keys now),
      ))

-- What an object that was made for the Mosquitto records of it.
record Records (m : Mosquitto) (s : StatefulSet) : Type 0 where
  pod_labels :
      lookup annotation_applied_pod_labels s.annotations ≡ some (join_keys m.spec.pod_labels)
  pod_annotations :
      lookup annotation_applied_pod_annotations s.annotations
      ≡ some (join_keys m.spec.pod_annotations)

ok_same : (a b : StatefulSet) → ok a ≡ ok b → a ≡ b
ok_same a b h = cc

get_or-some : (k v : Bytes) (m : Dict Bytes) → lookup k m ≡ some v → get_or k [] m ≡ v
get_or-some k v m h = rw (get_or-lookup k [] m, h) refl

built-Records :
    (e : Encodings) (opts : PodOptions) (m : Mosquitto) (s : StatefulSet)
    → build_stateful_set e m opts ≡ ok s
    → Records m s
unfolding build_stateful_set desired_stateful_set lookup bytes_discrete
built-Records e opts m s = elim (Bool-cases (opts.reloader_image =? [])) [
  | inl q ↦ rw q (λ h. absurd (cc h))
  | inr q ↦ rw q (λ h.
      let x = >>=-eq-ok (stateful_set_claims e m) _ h in
      subst (Records m) (ok_same (desired_stateful_set e m opts x.0) s x.2)
        (record { pod_labels = refl; pod_annotations = refl }))
]

left_keys-member :
    (name k : Bytes) (live old new : StatefulSet) (was now : Dict Bytes)
    → k ≢ []
    → All IsKey (keys was)
    → All IsKey (keys now)
    → lookup name old.annotations ≡ some (join_keys was)
    → lookup name new.annotations ≡ some (join_keys now)
    → member k (left_keys name (merge_stateful_set live old) new)
      ≡ (member k (keys was) && not (member k (keys now)))
unfolding left_keys merge_stateful_set
left_keys-member name k live old new was now ne hw hn ro rn =
    rw
      (
        merge_labels-Carries live.annotations old.annotations name (join_keys was) ro,
        get_or-some name (join_keys now) new.annotations rn,
      )
      (member-removed_keys k was now ne hw hn)

-- What an update leaves of a key of the pod template, by the map of the spec before and after.
abbrev pub kept : Bytes → Dict Bytes → Dict Bytes → Dict Bytes → Dict Bytes → Option Bytes
kept k was now live desired =
    or_else (lookup k desired)
      (if member k (keys was) && not (member k (keys now)) then none else lookup k live)

-- The operator makes a StatefulSet for a Mosquitto and merges it into whatever is live, and later
-- makes one for the Mosquitto as it is then and merges that. A key of the labels of the pod template
-- then has the desired value where there is one; else it is gone if spec.podLabels had it the first
-- time and has it no more, and else it keeps the value it had. The same holds of the annotations and
-- spec.podAnnotations. No key of these maps is empty or has a comma.
pub removed_spec_keys_leave_pods :
    (e : Encodings) (opts opts' : PodOptions) (before after : Mosquitto)
    (live old new : StatefulSet) (k : Bytes)
    → k ≢ []
    → All IsKey (keys before.spec.pod_labels)
    → All IsKey (keys after.spec.pod_labels)
    → All IsKey (keys before.spec.pod_annotations)
    → All IsKey (keys after.spec.pod_annotations)
    → build_stateful_set e before opts ≡ ok old
    → build_stateful_set e after opts' ≡ ok new
    → (lookup k (merge_stateful_set (merge_stateful_set live old) new).template.labels
        ≡ kept k before.spec.pod_labels after.spec.pod_labels
            (merge_stateful_set live old).template.labels
            new.template.labels)
      × (lookup k (merge_stateful_set (merge_stateful_set live old) new).template.annotations
          ≡ kept k before.spec.pod_annotations after.spec.pod_annotations
              (merge_stateful_set live old).template.annotations
              new.template.annotations)
removed_spec_keys_leave_pods e opts opts' before after live old new k ne lb la ab aa ho hn =
    let o = built-Records e opts before old ho in
    let n = built-Records e opts' after new hn in
    let x = merge_stateful_set_keys (merge_stateful_set live old) new k in
    (
      x.0
          ∙ (rw
              (left_keys-member annotation_applied_pod_labels k live old new _ _ ne lb la
                o.pod_labels n.pod_labels)
              refl),
      x.1
          ∙ (rw
              (left_keys-member annotation_applied_pod_annotations k live old new _ _ ne ab aa
                o.pod_annotations n.pod_annotations)
              refl),
    )
