-- ===== src/Config/Defs.antt =====
-- The generated configuration, and the allowlist that the lines of spec.config pass.
use mosquitto_operator.Base.{
  ℕ, ◌+◌, Bool, true, false, not, Option, none, some, List, [], ◌∷◌, ◌++◌, Bytes, codes, ◌==◌, ◌=?◌,
  if◌then◌else◌,
}
use mosquitto_operator.Base.Decimal.{itoa}
use mosquitto_operator.Base.Dict.{member}
use mosquitto_operator.Base.Results.{Message}
use mosquitto_operator.Base.Runes.{fields, trim_space}
use mosquitto_operator.Base.Strings.{has_prefix, split, join, trim_right}
use mosquitto_operator.Api.{Mosquitto, is_tls_enabled}

abbrev pub sys_interval : ℕ
sys_interval = 10

abbrev pub max_packet_size : ℕ
max_packet_size = 2000000

abbrev pub mqtt_port : ℕ
mqtt_port = 1883

abbrev pub mqtts_port : ℕ
mqtts_port = 8883

abbrev pub mqtt_port_name : Bytes
mqtt_port_name = codes "mqtt"

abbrev pub mqtts_port_name : Bytes
mqtts_port_name = codes "mqtts"

abbrev pub config_key : Bytes
config_key = codes "mosquitto.conf"

abbrev pub config_mount_path : Bytes
config_mount_path = codes "/mosquitto/config"

abbrev pub tls_mount_path : Bytes
tls_mount_path = codes "/mosquitto/tls"

abbrev pub data_mount_path : Bytes
data_mount_path = codes "/mosquitto/data"

abbrev pub auth_mount_path : Bytes
auth_mount_path = codes "/mosquitto/auth"

abbrev pub password_plugin_path : Bytes
password_plugin_path = codes "/usr/lib/mosquitto_password_file.so"

abbrev pub acl_plugin_path : Bytes
acl_plugin_path = codes "/usr/lib/mosquitto_acl_file.so"

abbrev pub tls_cert_key : Bytes
tls_cert_key = codes "tls.crt"

abbrev pub tls_key_key : Bytes
tls_key_key = codes "tls.key"

unfoldable pub config_map_name : Mosquitto → Bytes
config_map_name m = m.meta.name ++ codes "-config"

unfoldable pub broker_port : Mosquitto → ℕ
broker_port m = if is_tls_enabled m then mqtts_port else mqtt_port

unfoldable pub broker_port_name : Mosquitto → Bytes
broker_port_name m = if is_tls_enabled m then mqtts_port_name else mqtt_port_name

-- The lines before the listener.
unfoldable pub preamble : List Bytes
unfolding itoa
preamble =
    codes "# Generated by mosquitto-operator. Edits are overwritten on the next reconcile;"
    ∷ codes "# append your own directives through spec.config instead."
    ∷ []
    ∷ codes "# Logging goes to the container log so kubectl logs is the single source."
    ∷ codes "log_dest stdout"
    ∷ codes "log_type error"
    ∷ codes "log_type warning"
    ∷ codes "log_type notice"
    ∷ codes "log_type information"
    ∷ []
    ∷ codes "# Persistence writes into the data mount, which is a PVC when spec.storage"
    ∷ codes "# is set and an emptyDir otherwise."
    ∷ codes "persistence true"
    ∷ (codes "persistence_location " ++ (data_mount_path ++ codes "/"))
    ∷ []
    ∷ codes "# Two broker defaults, stated rather than inherited (M28, M29): how often"
    ∷ codes "# $SYS is published, which is the resolution of the metrics exporter, and"
    ∷ codes "# the packet limit 2.1 lowered. A line in spec.config overrides either."
    ∷ (codes "sys_interval " ++ itoa sys_interval)
    ∷ (codes "max_packet_size " ++ itoa max_packet_size)
    ∷ []
    ∷ codes "# Users. The operator renders every MosquittoUser bound to this broker into"
    ∷ codes "# these two files; the reloader sidecar copies a change in and reloads the"
    ∷ codes "# broker without a restart. There is no anonymous access."
    ∷ (codes "plugin_load pwfile " ++ password_plugin_path)
    ∷ (codes "plugin_opt_password_file " ++ (auth_mount_path ++ codes "/passwd"))
    ∷ (codes "plugin_load aclfile " ++ acl_plugin_path)
    ∷ (codes "plugin_opt_acl_file " ++ (auth_mount_path ++ codes "/acl"))
    ∷ []
    ∷ []

-- The one listener.
unfoldable pub listener : Bool → List Bytes
unfolding itoa
listener true =
    codes "# MQTTS listener. The certificate and key come from the secret named in"
    ∷ codes "# spec.tls.secretName; the operator neither creates nor renews them."
    ∷ (codes "listener " ++ itoa mqtts_port)
    ∷ (codes "certfile " ++ (tls_mount_path ++ codes "/" ++ tls_cert_key))
    ∷ (codes "keyfile " ++ (tls_mount_path ++ codes "/" ++ tls_key_key))
    ∷ []
listener false = codes "# Plain MQTT listener." ∷ (codes "listener " ++ itoa mqtt_port) ∷ []

unfoldable pub listener_options : List Bytes
listener_options =
    codes "listener_allow_anonymous false"
    ∷ codes "# The client ID is the username: no client can take over another client's"
    ∷ codes "# session, and one username holds one connection."
    ∷ codes "use_username_as_clientid true"
    ∷ codes "plugin_use pwfile"
    ∷ codes "plugin_use aclfile"
    ∷ []
    ∷ []

unfoldable pub is_line_break : ℕ → Bool
is_line_break c = c == 10

-- What spec.config appends.
unfoldable pub appended : Bytes → List Bytes
unfolding is_line_break
appended config =
    if not (trim_space config =? [])
    then codes "# spec.config, appended after every line passed the allowlist."
      ∷ trim_right is_line_break config
      ∷ []
      ∷ []
    else []

unfoldable pub generate_mosquitto_conf : Mosquitto → Bytes
generate_mosquitto_conf m =
    join (preamble ++ (listener (is_tls_enabled m) ++ (listener_options ++ appended m.spec.config)))
      10

unfoldable pub allowed_config_directives : List Bytes
allowed_config_directives =
    codes "autosave_interval"
    ∷ codes "autosave_on_changes"
    ∷ codes "connection_messages"
    ∷ codes "global_max_clients"
    ∷ codes "global_max_connections"
    ∷ codes "log_timestamp"
    ∷ codes "log_timestamp_format"
    ∷ codes "log_type"
    ∷ codes "max_connections"
    ∷ codes "max_inflight_bytes"
    ∷ codes "max_inflight_messages"
    ∷ codes "max_keepalive"
    ∷ codes "max_packet_size"
    ∷ codes "max_qos"
    ∷ codes "max_queued_bytes"
    ∷ codes "max_queued_messages"
    ∷ codes "max_topic_alias"
    ∷ codes "max_topic_alias_broker"
    ∷ codes "memory_limit"
    ∷ codes "persistent_client_expiration"
    ∷ codes "queue_qos0_messages"
    ∷ codes "retain_available"
    ∷ codes "retain_expiry_interval"
    ∷ codes "set_tcp_nodelay"
    ∷ codes "sys_interval"
    ∷ codes "upgrade_outgoing_qos"
    ∷ []

-- The first word of a line that is neither blank nor a comment.
unfoldable pub directive_of : List Bytes → Option Bytes
directive_of [] = none
directive_of (f ∷ _) = if has_prefix f (codes "#") then none else some f

abbrev refusal : ℕ → Bytes → Bytes → Message
refusal i line directive = record {
  format =
      codes
        "spec.config line %d (%q): the directive %q is not on the allowlist of tuning directives";
  args = itoa (i + 1) ∷ trim_space line ∷ directive ∷ [];
}

-- The loop of `ValidateSpecConfig` from line `i`: the error of the first refused line.
unfoldable pub validate_lines : ℕ → List Bytes → Option Message
validate_lines i [] = none
validate_lines i (line ∷ lines) = elim (directive_of (fields line)) [
  | none ↦ validate_lines (i + 1) lines
  | some directive ↦ elim (member directive allowed_config_directives) [
    | true ↦ validate_lines (i + 1) lines
    | false ↦ some (refusal i line directive)
  ]
]

unfoldable pub validate_spec_config : Mosquitto → Option Message
validate_spec_config m = validate_lines 0 (split m.spec.config 10)
