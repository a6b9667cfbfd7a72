-- ===== src/Examples/Converges.antt =====
-- internal/controller at concrete inputs: a pass that makes every object of a broker.
use mosquitto_operator.Base.{
  ℕ, ◌≡◌, refl, none, some, [], ◌∷◌, codes, bytes_discrete, if◌then◌else◌,
}
use mosquitto_operator.Base.Results.{ok}
use mosquitto_operator.Controller.Exec.{State, ask, tell, for_each}
use mosquitto_operator.Controller.Objects.{
  ensure, set_controller, owned, write_over, create, reconcile_config_map, reconcile_service,
  reconcile_stateful_set, reconcile_auth_secret, fetch, read, renew, update, ensure_owned,
}
use mosquitto_operator.Controller.Cluster.{
  secret, config_map, service, stateful_set, Objects, Stored, ◌=key◌,
}
use mosquitto_operator.Builder.StatefulSets.{build_stateful_set, stateful_set_claims}
use mosquitto_operator.Base.Strings.{has_prefix, to_lower, split, cut}
use mosquitto_operator.Controller.Passes.{reconcile_resources}
use mosquitto_operator.Controller.Users.{
  render_users, list_users, gather, read_credentials, with_metadata, current_auth_data,
  metrics_password, exporter_password, render_inputs, write_user_statuses, persist_user_status,
  update_user, users_of, put_status, secret_missing, consumable, credentials_in, gathered, trusted,
  reserved_of, with_password, user_pass, verdict_status, consumable_label, consumable_label_value,
  key_of_credentials,
}
use mosquitto_operator.Examples.Clusters.{quiet_outside, operator_of, start, sample_user}
use mosquitto_operator.Examples.Samples.{sample_broker}
use mosquitto_operator.Api.{is_metrics_enabled, is_storage_enabled, username_key, password_key}
use mosquitto_operator.Auth.Render.{
  render, file_payload, accept_winners, resolve_collisions, check_all, accept_reserved,
}
use mosquitto_operator.Auth.Defs.{check, matches_username_pattern, acl_refusal}
use mosquitto_operator.Auth.Hash.{keep_or_hash, hash_password}
use mosquitto_operator.Auth.Files.{hashes}
use mosquitto_operator.Base.Dict.{get_or, lookup}
use mosquitto_operator.Labels.{auth_secret_name}
use mosquitto_operator.Base.Sort.{sort}
use mosquitto_operator.Controller.Conditions.{user_status_unchanged}
use mosquitto_operator.Controller.Cluster.{put}
use mosquitto_operator.Builder.Services.{
  build_auth_secret, build_headless_service, build_client_service,
}
use mosquitto_operator.Labels.{headless_service_name, client_service_name}

-- The Secret of the user, with its owner's consent.
abbrev sample_secret : Stored secret
sample_secret = record {
  controller = none;
  content = record {
    name = codes "sensor-secret";
    namespace = codes "home";
    labels = (consumable_label, consumable_label_value) ∷ [];
    kind = codes "Opaque";
    files = (codes "username", codes "sensor") ∷ (codes "password", codes "secret") ∷ [];
  };
}

-- No object of the broker is there yet.
abbrev pub only_credentials : Objects
only_credentials config_map key = none
only_credentials service key = none
only_credentials stateful_set key = none
only_credentials secret key =
    if key_of_credentials sample_user =key key then some sample_secret else none

abbrev pub fresh : State ℕ
fresh = record start { cluster = record start.cluster { objects = only_credentials } }

pub resources_done :
    (reconcile_resources quiet_outside (operator_of (codes "home")) sample_broker fresh).0 ≡ ok 1
unfolding hash_password build_auth_secret consumable get_or credentials_in lookup username_key
    password_key check matches_username_pattern has_prefix to_lower acl_refusal keep_or_hash
    file_payload hashes split auth_secret_name cut is_metrics_enabled render accept_winners
    resolve_collisions sort check_all secret_missing accept_reserved user_status_unchanged put
    build_headless_service build_client_service headless_service_name client_service_name
    is_storage_enabled reconcile_resources render_users ensure set_controller owned ask write_over
    create tell fetch read renew update ensure_owned bytes_discrete list_users gather
    read_credentials with_metadata current_auth_data metrics_password exporter_password
    render_inputs write_user_statuses persist_user_status update_user users_of put_status gathered
    trusted reserved_of with_password user_pass verdict_status for_each build_stateful_set
    stateful_set_claims reconcile_config_map reconcile_service reconcile_stateful_set
    reconcile_auth_secret
resources_done = refl
