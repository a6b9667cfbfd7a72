-- ===== src/Examples/Brokers.antt =====
-- internal/common and internal/builder at concrete inputs.
use mosquitto_operator.Base.{
  ◌≡◌, ◌≢◌, ◌↔◌, refl, inl, false, none, some, [], ◌∷◌, Bytes, codes, In, bytes_discrete,
}
use mosquitto_operator.Base.Decimal.{itoa}
use mosquitto_operator.Base.Dict.{Dict, keys, lookup, insert, insert_all, NodupKeys-distinct}
use mosquitto_operator.Base.Results.{ok}
use mosquitto_operator.Base.Runes.{fields}
use mosquitto_operator.Base.Strings.{Lacks-contains, contains, has_prefix, split}
use mosquitto_operator.Api.{is_storage_enabled}
use mosquitto_operator.Labels.{
  label_instance, map_entries_missing, extract_version_from_image, removed_keys, join_keys,
  base_labels, merge_labels, selector_labels,
}
use mosquitto_operator.Labels.Valid.{IsLabelValue, extract_version_from_image-IsLabelValue}
use mosquitto_operator.Labels.Merge.{Carries, map_entries_missing_iff}
use mosquitto_operator.Builder.Applied.{kept, removed_spec_keys_leave_pods}
use mosquitto_operator.Api.{Mosquitto}
use mosquitto_operator.Labels.Removed.{IsKey, removed_keys-join_keys}
use mosquitto_operator.Config.{
  validate_spec_config, generate_mosquitto_conf, broker_port, validate_lines, directive_of,
  allowed_config_directives,
}
use mosquitto_operator.Config.Locked.{IsLocked, generate_mosquitto_conf-IsLocked}
use mosquitto_operator.Builder.Objects.{StatefulSet}
use mosquitto_operator.Builder.Pods.{PodOptions, build_pod_spec}
use mosquitto_operator.Builder.Services.{build_client_service}
use mosquitto_operator.Builder.StatefulSets.{
  Encodings, annotation_applied_pod_labels, desired_stateful_set, build_stateful_set,
  stateful_set_has_changed, merge_stateful_set, stateful_set_claims, operator_annotations,
}
use mosquitto_operator.Builder.Updates.{HasMaps, merge_stateful_set_settles, services_select_pods}
use mosquitto_operator.Examples.Samples.{sample_broker}

allowed : validate_spec_config sample_broker ≡ none
unfolding validate_spec_config validate_lines split directive_of fields has_prefix
    allowed_config_directives bytes_discrete
allowed = refl

generate_mosquitto_conf-IsLocked_example :
    IsLocked (itoa (broker_port sample_broker)) (generate_mosquitto_conf sample_broker)
generate_mosquitto_conf-IsLocked_example = generate_mosquitto_conf-IsLocked sample_broker allowed

abbrev options : PodOptions
options = record { reloader_image = codes "operator:1" }

abbrev pub encodings : Encodings
encodings = record {
  marshal_pod_spec = λ p. codes "{}";
  marshal_text = λ s. s;
  parse_quantity = λ s. ok s;
}

abbrev desired : StatefulSet
desired = desired_stateful_set encodings sample_broker options []

-- The live object: one label of another writer, and a record of a label that left the spec.
abbrev live : StatefulSet
live = record {
  name = codes "broker";
  namespace = codes "home";
  labels = (codes "flux", codes "yes") ∷ [];
  annotations = (annotation_applied_pod_labels, codes "old,team") ∷ [];
  replicas = none;
  service_name = codes "broker-headless";
  match_labels = [];
  template = record {
    labels = (codes "old", codes "1") ∷ (codes "flux", codes "yes") ∷ [];
    annotations = [];
    spec = build_pod_spec sample_broker options;
  };
  volume_claim_templates = [];
}

desired-HasMaps : HasMaps desired
unfolding desired_stateful_set operator_annotations base_labels merge_labels insert insert_all keys
    bytes_discrete
desired-HasMaps = record {
  of_labels = NodupKeys-distinct desired.labels refl;
  of_annotations = NodupKeys-distinct desired.annotations refl;
  of_template_labels = NodupKeys-distinct desired.template.labels refl;
  of_template_annotations = NodupKeys-distinct desired.template.annotations refl;
}

merge_stateful_set_settles_example :
    stateful_set_has_changed desired (merge_stateful_set live desired) ≡ false
merge_stateful_set_settles_example = merge_stateful_set_settles live desired desired-HasMaps

built : build_stateful_set encodings sample_broker options ≡ ok desired
unfolding build_stateful_set stateful_set_claims is_storage_enabled bytes_discrete
built = refl

selected :
    lookup label_instance (build_client_service sample_broker).selector ≡ some (codes "broker")
unfolding build_client_service selector_labels lookup bytes_discrete
selected = refl

services_select_pods_example :
    lookup label_instance (merge_stateful_set live desired).template.labels ≡ some (codes "broker")
services_select_pods_example =
    services_select_pods encodings sample_broker options live desired label_instance
      (codes "broker") built (inl selected)

extract_version_from_image-IsLabelValue_example :
    IsLabelValue
      (extract_version_from_image (codes "registry:5000/mosquitto@sha256:0123456789abcdef"))
extract_version_from_image-IsLabelValue_example =
    extract_version_from_image-IsLabelValue
      (codes "registry:5000/mosquitto@sha256:0123456789abcdef")

abbrev before : Dict Bytes
before = (codes "team", codes "iot") ∷ (codes "old", codes "1") ∷ []

abbrev after : Dict Bytes
after = (codes "team", codes "ops") ∷ []

removed_keys-join_keys_example :
    In (codes "old") (removed_keys (join_keys before) (join_keys after))
    ↔ (In (codes "old") (keys before) × ¬ In (codes "old") (keys after))
unfolding keys contains
removed_keys-join_keys_example =
    removed_keys-join_keys (codes "old") before after (λ e. cc)
      (
        (λ e. cc, Lacks-contains b',' (codes "team") refl),
        ((λ e. cc, Lacks-contains b',' (codes "old") refl), tt),
      )
      ((λ e. cc, Lacks-contains b',' (codes "team") refl), tt)

map_entries_missing_iff_example : (map_entries_missing after before ≡ false) ↔ Carries before after
unfolding keys
map_entries_missing_iff_example = map_entries_missing_iff after before (λ i. absurd i, tt)

-- The broker had a label that its spec has no more.
abbrev earlier_broker : Mosquitto
earlier_broker = record sample_broker { spec = record sample_broker.spec { pod_labels = before } }

abbrev earlier : StatefulSet
earlier = desired_stateful_set encodings earlier_broker options []

built_earlier : build_stateful_set encodings earlier_broker options ≡ ok earlier
unfolding build_stateful_set stateful_set_claims is_storage_enabled bytes_discrete
built_earlier = refl

is_key : (k : Bytes) → k ≢ [] → contains k b',' ≡ false → IsKey k
is_key k ne h = (ne, Lacks-contains b',' k h)

removed_spec_keys_leave_pods_example :
    (lookup
        (codes "old")
        (merge_stateful_set (merge_stateful_set live earlier) desired).template.labels
      ≡ kept
          (codes "old")
          before
          sample_broker.spec.pod_labels
          (merge_stateful_set live earlier).template.labels
          desired.template.labels)
    × (lookup
          (codes "old")
          (merge_stateful_set (merge_stateful_set live earlier) desired).template.annotations
        ≡ kept
            (codes "old")
            []
            []
            (merge_stateful_set live earlier).template.annotations
            desired.template.annotations)
unfolding keys contains
removed_spec_keys_leave_pods_example =
    removed_spec_keys_leave_pods encodings options options earlier_broker sample_broker live earlier
      desired (codes "old") (λ e. cc)
      (is_key (codes "team") (λ e. cc) refl, (is_key (codes "old") (λ e. cc) refl, tt))
      (
        is_key (codes "team") (λ e. cc) refl,
        (is_key (codes "app.kubernetes.io/name") (λ e. cc) refl, tt),
      )
      tt tt built_earlier built
