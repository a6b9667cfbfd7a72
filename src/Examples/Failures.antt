-- ===== src/Examples/Failures.antt =====
-- internal/controller at concrete inputs: a pass that fails.
use mosquitto_operator.Base.{ℕ, ◌≡◌, refl, [], ◌∷◌, codes, bytes_discrete}
use mosquitto_operator.Base.Results.{err, Error, new}
use mosquitto_operator.Controller.Failing.{SaysFailed, failed_pass_is_reported}
use mosquitto_operator.Controller.Statuses.{fetch_broker}
use mosquitto_operator.Config.{
  config_map_name, validate_spec_config, validate_lines, directive_of, allowed_config_directives,
}
use mosquitto_operator.Base.Runes.{fields}
use mosquitto_operator.Controller.Exec.{State, ask, tell, for_each}
use mosquitto_operator.Controller.Objects.{
  message, ensure, set_controller, owned, write_over, create, reconcile_config_map,
  reconcile_service, reconcile_stateful_set, reconcile_auth_secret, fetch, read, renew, update,
  ensure_owned,
}
use mosquitto_operator.Builder.StatefulSets.{build_stateful_set, stateful_set_claims}
use mosquitto_operator.Base.Strings.{has_prefix, to_lower, split, cut}
use mosquitto_operator.Controller.Passes.{
  reconcile_resources, reconcile, reconcile_found, reconcile_broker, refuse_pass, namespace_granted,
  refuse_config, refuse_tls_secret, act, finish, fail_pass,
}
use mosquitto_operator.Controller.Users.{
  render_users, list_users, gather, read_credentials, with_metadata, current_auth_data,
  metrics_password, exporter_password, render_inputs, write_user_statuses, persist_user_status,
  update_user, users_of, put_status, secret_missing, consumable, credentials_in, gathered, trusted,
  reserved_of, with_password, user_pass, verdict_status,
}
use mosquitto_operator.Examples.Clusters.{
  quiet_outside, operator_of, start, home_key, broker-stored,
}
use mosquitto_operator.Examples.Samples.{sample_broker}
use mosquitto_operator.Api.{
  is_tls_enabled, is_metrics_enabled, is_storage_enabled, username_key, password_key,
}
use mosquitto_operator.Auth.Render.{
  render, file_payload, accept_winners, resolve_collisions, check_all, accept_reserved,
}
use mosquitto_operator.Auth.Defs.{check, matches_username_pattern, acl_refusal}
use mosquitto_operator.Auth.Hash.{keep_or_hash, hash_password}
use mosquitto_operator.Auth.Files.{hashes}
use mosquitto_operator.Base.Dict.{get_or, lookup}
use mosquitto_operator.Labels.{auth_secret_name}
use mosquitto_operator.Base.Sort.{sort}
use mosquitto_operator.Controller.Conditions.{user_status_unchanged}
use mosquitto_operator.Controller.Cluster.{put}
use mosquitto_operator.Builder.Services.{
  build_config_map, build_auth_secret, build_headless_service, build_client_service,
}
use mosquitto_operator.Labels.{headless_service_name, client_service_name}

-- Somebody else's ConfigMap has the name of the broker's, and no user is bound to it.
abbrev unbound : State ℕ
unbound = record start { cluster = record start.cluster { users = [] } }

abbrev failure : Error
failure = new (
    message (codes "%s %s/%s exists and is not owned by this Mosquitto")
      (codes "ConfigMap" ∷ codes "home" ∷ codes "broker-config" ∷ []))

fails_foreign :
    (reconcile quiet_outside (operator_of (codes "home")) home_key unbound).0 ≡ err failure
unfolding build_config_map config_map_name hash_password build_auth_secret consumable get_or
    credentials_in lookup username_key password_key check matches_username_pattern has_prefix
    to_lower acl_refusal keep_or_hash file_payload hashes split auth_secret_name cut
    is_metrics_enabled render accept_winners resolve_collisions sort check_all secret_missing
    accept_reserved user_status_unchanged put build_headless_service build_client_service
    headless_service_name client_service_name is_storage_enabled reconcile_resources render_users
    ensure set_controller owned ask write_over create tell fetch read renew update ensure_owned
    bytes_discrete list_users gather read_credentials with_metadata current_auth_data
    metrics_password exporter_password render_inputs write_user_statuses persist_user_status
    update_user users_of put_status gathered trusted reserved_of with_password user_pass
    verdict_status for_each build_stateful_set stateful_set_claims reconcile_config_map
    reconcile_service reconcile_stateful_set reconcile_auth_secret reconcile reconcile_found
    reconcile_broker refuse_pass namespace_granted refuse_config refuse_tls_secret act finish
    fail_pass is_tls_enabled fetch_broker validate_spec_config validate_lines directive_of
    allowed_config_directives fields
fails_foreign = refl

failed_pass_is_reported_example :
    SaysFailed quiet_outside home_key sample_broker failure
      (reconcile quiet_outside (operator_of (codes "home")) home_key unbound).1.cluster
failed_pass_is_reported_example =
    failed_pass_is_reported quiet_outside (operator_of (codes "home")) home_key sample_broker
      failure unbound (λ calls call. refl) broker-stored refl fails_foreign
