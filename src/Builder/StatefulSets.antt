-- ===== src/Builder/StatefulSets.antt =====
-- internal/builder/statefulset.go: the StatefulSet, whether it changed, and how an update merges it.
-- The JSON encoding and the parser of quantities are parameters.
use mosquitto_operator.Base.{
  ℕ, Bool, true, false, not, ◌||◌, Option, none, some, List, [], ◌∷◌, Bytes, codes, ◌=?◌, ◌==◌,
  if◌then◌else◌,
}
use mosquitto_operator.Base.Dict.{Dict, get_or, erase_all}
use mosquitto_operator.Base.Results.{Result, ok, err, new, wrap, ◌>>=◌}
use mosquitto_operator.Api.{Mosquitto, MosquittoStorage, is_storage_enabled}
use mosquitto_operator.Labels.{
  base_labels, selector_labels, merge_labels, map_entries_missing, join_keys, removed_keys,
  stateful_set_name, headless_service_name,
}
use mosquitto_operator.Config.{generate_mosquitto_conf}
use mosquitto_operator.Builder.Objects.{PodSpec, PersistentVolumeClaim, StatefulSet}
use mosquitto_operator.Builder.Hash.{hash_of}
use mosquitto_operator.Builder.Pods.{
  PodOptions, resolve_image, build_pod_spec, data_volume_name, broker_container_name,
}

abbrev pub annotation_pod_spec_hash : Bytes
annotation_pod_spec_hash = codes "mko.gtrfc.com/pod-spec-hash"

abbrev pub annotation_config_hash : Bytes
annotation_config_hash = codes "mko.gtrfc.com/config-hash"

abbrev pub annotation_default_container : Bytes
annotation_default_container = codes "kubectl.kubernetes.io/default-container"

abbrev pub annotation_applied_pod_labels : Bytes
annotation_applied_pod_labels = codes "mko.gtrfc.com/applied-pod-labels"

abbrev pub annotation_applied_pod_annotations : Bytes
annotation_applied_pod_annotations = codes "mko.gtrfc.com/applied-pod-annotations"

-- `json.Marshal` of the two types that are hashed, and `resource.ParseQuantity`.
pub record Encodings : Type 0 where
  pub marshal_pod_spec : PodSpec → Bytes
  pub marshal_text : Bytes → Bytes
  pub parse_quantity : Bytes → Result Bytes

-- The annotations that the operator writes on a pod.
unfoldable pub operator_annotations : Encodings → Mosquitto → PodOptions → Dict Bytes
operator_annotations e m opts =
    (annotation_pod_spec_hash, hash_of (e.marshal_pod_spec (build_pod_spec m opts)))
    ∷ (annotation_config_hash, hash_of (e.marshal_text (generate_mosquitto_conf m)))
    ∷ (annotation_default_container, broker_container_name)
    ∷ []

abbrev claim : Mosquitto → MosquittoStorage → Bytes → PersistentVolumeClaim
claim m storage size = record {
  name = data_volume_name;
  labels = base_labels m (resolve_image m);
  access_modes = codes "ReadWriteOnce" ∷ [];
  storage_class_name = storage.storage_class_name;
  storage = size;
}

-- Called behind `IsStorageEnabled` only, where there is a storage.
unfoldable pub build_volume_claim_templates :
    Encodings → Mosquitto → Option MosquittoStorage → Result (List PersistentVolumeClaim)
build_volume_claim_templates e m none = ok []
build_volume_claim_templates e m (some storage) =
    wrap (record { format = codes "parsing spec.storage.size %q: %w"; args = storage.size ∷ [] })
      (e.parse_quantity storage.size)
    >>= (λ size. ok (claim m storage size ∷ []))

unfoldable pub desired_stateful_set :
    Encodings → Mosquitto → PodOptions → List PersistentVolumeClaim → StatefulSet
desired_stateful_set e m opts claims = record {
  name = stateful_set_name m;
  namespace = m.meta.namespace;
  labels = base_labels m (resolve_image m);
  annotations =
      (annotation_applied_pod_labels, join_keys m.spec.pod_labels)
      ∷ (annotation_applied_pod_annotations, join_keys m.spec.pod_annotations)
      ∷ [];
  replicas = some m.spec.replicas;
  service_name = headless_service_name m;
  match_labels = selector_labels m;
  template = record {
    labels = merge_labels m.spec.pod_labels (base_labels m (resolve_image m));
    annotations = merge_labels m.spec.pod_annotations (operator_annotations e m opts);
    spec = build_pod_spec m opts;
  };
  volume_claim_templates = claims;
}

-- `if m.IsStorageEnabled() { … }`
unfoldable pub stateful_set_claims : Encodings → Mosquitto → Result (List PersistentVolumeClaim)
stateful_set_claims e m =
    if is_storage_enabled m then build_volume_claim_templates e m m.spec.storage else ok []

unfoldable pub build_stateful_set : Encodings → Mosquitto → PodOptions → Result StatefulSet
build_stateful_set e m opts =
    if opts.reloader_image =? []
    then err (
        new (record {
          format = codes "no reloader image is configured (--reloader-image)";
          args = [];
        }))
    else stateful_set_claims e m >>= (λ claims. ok (desired_stateful_set e m opts claims))

unfoldable pub replicas_differ : Option ℕ → Option ℕ → Bool
replicas_differ (some a) (some b) = not (a == b)
replicas_differ _ _ = false

unfoldable pub stateful_set_has_changed : StatefulSet → StatefulSet → Bool
stateful_set_has_changed desired current =
    if replicas_differ desired.replicas current.replicas
    then true
    else map_entries_missing desired.labels current.labels
      || (map_entries_missing desired.annotations current.annotations
          || (map_entries_missing desired.template.labels current.template.labels
              || map_entries_missing desired.template.annotations current.template.annotations))

unfoldable pub without_keys : Dict Bytes → List Bytes → Dict Bytes
without_keys m ks = erase_all ks (merge_labels m [])

-- The keys that `desired` no longer records under an applied-keys annotation of `current`.
unfoldable pub left_keys : Bytes → StatefulSet → StatefulSet → List Bytes
left_keys record_name current desired =
    removed_keys (get_or record_name [] current.annotations)
      (get_or record_name [] desired.annotations)

unfoldable pub merge_stateful_set : StatefulSet → StatefulSet → StatefulSet
merge_stateful_set current desired = record {
  name = current.name;
  namespace = current.namespace;
  labels = merge_labels current.labels desired.labels;
  annotations = merge_labels current.annotations desired.annotations;
  replicas = desired.replicas;
  service_name = current.service_name;
  match_labels = current.match_labels;
  template = record {
    labels =
        merge_labels
          (without_keys current.template.labels
            (left_keys annotation_applied_pod_labels current desired))
          desired.template.labels;
    annotations =
        merge_labels
          (without_keys current.template.annotations
            (left_keys annotation_applied_pod_annotations current desired))
          desired.template.annotations;
    spec = desired.template.spec;
  };
  volume_claim_templates = current.volume_claim_templates;
}
