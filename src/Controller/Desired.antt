-- ===== src/Controller/Desired.antt =====
-- The maps of the objects that the builders make (internal/builder).
use mosquitto_operator.Base.{
  ◌≡◌, refl, subst, [], Bytes, bytes_discrete, inl, inr, ◌=?◌, Bool-cases,
}
use mosquitto_operator.Base.Dict.{Dict, NodupKeys, NodupKeys-distinct, keys, insert_all-NodupKeys}
use mosquitto_operator.Base.Results.{Result, ok, >>=-eq-ok}
use mosquitto_operator.Api.{Mosquitto}
use mosquitto_operator.Labels.{base_labels, selector_labels, merge_labels}
use mosquitto_operator.Builder.Objects.{StatefulSet}
use mosquitto_operator.Builder.Pods.{PodOptions}
use mosquitto_operator.Builder.Services.{
  build_config_map, build_headless_service, build_client_service,
}
use mosquitto_operator.Builder.StatefulSets.{
  Encodings, build_stateful_set, stateful_set_claims, desired_stateful_set,
}
use mosquitto_operator.Controller.Cluster.{config_map, service, stateful_set}
use mosquitto_operator.Controller.Settled.{HasMaps}

base_labels-NodupKeys : (m : Mosquitto) (image : Bytes) → NodupKeys (base_labels m image)
unfolding base_labels keys bytes_discrete
base_labels-NodupKeys m image = NodupKeys-distinct (base_labels m image) refl

selector_labels-NodupKeys : (m : Mosquitto) → NodupKeys (selector_labels m)
unfolding selector_labels keys bytes_discrete
selector_labels-NodupKeys m = NodupKeys-distinct (selector_labels m) refl

merge_labels-NodupKeys : (base overlay : Dict Bytes) → NodupKeys (merge_labels base overlay)
unfolding merge_labels
merge_labels-NodupKeys base overlay =
    insert_all-NodupKeys overlay _ (insert_all-NodupKeys base [] tt)

pub build_config_map-HasMaps : (m : Mosquitto) → HasMaps config_map (build_config_map m)
unfolding build_config_map keys
build_config_map-HasMaps m = (((λ x. x), tt), base_labels-NodupKeys m _)

pub build_headless_service-HasMaps : (m : Mosquitto) → HasMaps service (build_headless_service m)
unfolding build_headless_service
build_headless_service-HasMaps m = (selector_labels-NodupKeys m, base_labels-NodupKeys m _)

pub build_client_service-HasMaps : (m : Mosquitto) → HasMaps service (build_client_service m)
unfolding build_client_service
build_client_service-HasMaps m = (selector_labels-NodupKeys m, base_labels-NodupKeys m _)

built : (a b : StatefulSet) → ◌≡◌ {A = Result StatefulSet} (ok a) (ok b) → a ≡ b
built a b h = cc

module _ (e : Encodings) (m : Mosquitto) (opts : PodOptions) where
  desired_stateful_set-HasMaps :
      (claims : _) → HasMaps stateful_set (desired_stateful_set e m opts claims)
  unfolding desired_stateful_set keys bytes_discrete
  desired_stateful_set-HasMaps claims = record {
    of_labels = base_labels-NodupKeys m _;
    of_annotations = NodupKeys-distinct (desired_stateful_set e m opts claims).annotations refl;
    of_template_labels = merge_labels-NodupKeys _ _;
    of_template_annotations = merge_labels-NodupKeys _ _;
  }

  pub build_stateful_set-HasMaps :
      (d : StatefulSet) → build_stateful_set e m opts ≡ ok d → HasMaps stateful_set d
  unfolding build_stateful_set
  build_stateful_set-HasMaps d = elim (Bool-cases (opts.reloader_image =? [])) [
    | inl q ↦ rw q (λ h. absurd (cc h))
    | inr q ↦ rw q (λ h.
        let x = >>=-eq-ok (stateful_set_claims e m) _ h in
        subst (HasMaps stateful_set) (built (desired_stateful_set e m opts x.0) d x.2)
          (desired_stateful_set-HasMaps x.0))
  ]
