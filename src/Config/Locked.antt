-- ===== src/Config/Locked.antt =====
-- Why spec.config cannot open the broker: the security settings of the whole generated file.
use mosquitto_operator.Base.{
  ◌≡◌, refl, ◌∙◌, Bool, true, false, none, List, [], ◌∷◌, ◌++◌, Bytes, codes, if◌then◌else◌,
  bytes_discrete,
}
use mosquitto_operator.Base.Decimal.{itoa}
use mosquitto_operator.Base.Runes.{fields}
use mosquitto_operator.Base.Strings.{has_prefix, split}
use mosquitto_operator.Api.{Mosquitto, is_tls_enabled}
use mosquitto_operator.Config.Defs.{
  mqtt_port, mqtts_port, broker_port, preamble, listener, listener_options, generate_mosquitto_conf,
  allowed_config_directives, directive_of, validate_spec_config,
}
use mosquitto_operator.Config.Lines.{with_directive, all_lines, lines_of, lines_of_generated}

abbrev generated_block : Bool → List Bytes
generated_block tls = preamble ++ (listener tls ++ listener_options)

block_listener :
    (tls : Bool)
    → with_directive (codes "listener") (all_lines (generated_block tls))
      ≡ (codes "listener " ++ itoa (if tls then mqtts_port else mqtt_port)) ∷ []
unfolding with_directive all_lines preamble listener listener_options split fields directive_of
    has_prefix bytes_discrete itoa
block_listener true = refl
block_listener false = refl

block_anonymous :
    (tls : Bool)
    → with_directive (codes "listener_allow_anonymous") (all_lines (generated_block tls))
      ≡ codes "listener_allow_anonymous false" ∷ []
unfolding with_directive all_lines preamble listener listener_options split fields directive_of
    has_prefix bytes_discrete itoa
block_anonymous true = refl
block_anonymous false = refl

block_global_anonymous :
    (tls : Bool) → with_directive (codes "allow_anonymous") (all_lines (generated_block tls)) ≡ []
unfolding with_directive all_lines preamble listener listener_options split fields directive_of
    has_prefix bytes_discrete itoa
block_global_anonymous true = refl
block_global_anonymous false = refl

block_plugins :
    (tls : Bool)
    → with_directive (codes "plugin_load") (all_lines (generated_block tls))
      ≡ codes "plugin_load pwfile /usr/lib/mosquitto_password_file.so"
        ∷ codes "plugin_load aclfile /usr/lib/mosquitto_acl_file.so"
        ∷ []
unfolding with_directive all_lines preamble listener listener_options split fields directive_of
    has_prefix bytes_discrete itoa
block_plugins true = refl
block_plugins false = refl

-- What a valid spec.config leaves of the generated security settings: one listener, on the port of
-- the Service, one answer to anonymous access, and the two plugins.
pub record IsLocked (port : Bytes) (conf : Bytes) : Type 0 where
  pub one_listener : lines_of (codes "listener") conf ≡ (codes "listener " ++ port) ∷ []
  pub no_anonymous :
      lines_of (codes "listener_allow_anonymous") conf ≡ codes "listener_allow_anonymous false" ∷ []
  pub no_global_anonymous : lines_of (codes "allow_anonymous") conf ≡ []
  pub plugins :
      lines_of (codes "plugin_load") conf
      ≡ codes "plugin_load pwfile /usr/lib/mosquitto_password_file.so"
        ∷ codes "plugin_load aclfile /usr/lib/mosquitto_acl_file.so"
        ∷ []

-- When `ValidateSpecConfig` accepts spec.config, the whole generated file has exactly one
-- `listener` line, on the broker's port, exactly one `listener_allow_anonymous` line, which says
-- false, no `allow_anonymous` line, and exactly the two generated `plugin_load` lines.
pub generate_mosquitto_conf-IsLocked :
    (m : Mosquitto)
    → validate_spec_config m ≡ none
    → IsLocked (itoa (broker_port m)) (generate_mosquitto_conf m)
unfolding broker_port
generate_mosquitto_conf-IsLocked m v = record {
  one_listener =
      lines_of_generated m (codes "listener") v
        (unfold allowed_config_directives bytes_discrete in refl)
      ∙ block_listener (is_tls_enabled m);
  no_anonymous =
      lines_of_generated m (codes "listener_allow_anonymous") v
        (unfold allowed_config_directives bytes_discrete in refl)
      ∙ block_anonymous (is_tls_enabled m);
  no_global_anonymous =
      lines_of_generated m (codes "allow_anonymous") v
        (unfold allowed_config_directives bytes_discrete in refl)
      ∙ block_global_anonymous (is_tls_enabled m);
  plugins =
      lines_of_generated m (codes "plugin_load") v
        (unfold allowed_config_directives bytes_discrete in refl)
      ∙ block_plugins (is_tls_enabled m);
}
