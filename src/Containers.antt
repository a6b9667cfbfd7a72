-- ===== src/Containers.antt =====
-- The programs that the containers of a broker pod run: the arguments of the containers
-- (internal/builder/statefulset.go) as the programs read them (internal/reloader/run.go,
-- internal/exporter/run.go).
pub mod Init
use mosquitto_operator.Base.{
  ℕ, ◌≡◌, ◌⊎◌, Bool, Option, none, some, List, [], ◌∷◌, ◌++◌, map, Bytes, codes, ◌=?◌,
  if◌then◌else◌,
}
use mosquitto_operator.Base.Decimal.{itoa}
use mosquitto_operator.Base.Dict.{Dict}
use mosquitto_operator.Base.Flags.{Syntax}
use mosquitto_operator.Base.Results.{Result, ok}
use mosquitto_operator.Api.{Mosquitto, is_tls_enabled}
use mosquitto_operator.Auth.Defs.{exporter_username}
use mosquitto_operator.Auth.Files.{passwd_key, acl_key}
use mosquitto_operator.Builder.Objects.{ContainerPort, Container, VolumeMount}
use mosquitto_operator.Builder.Pods.{
  PodOptions, auth_init_container_name, build_reload_container, auth_secret_mount_path,
  exporter_secret_mount_path, exporter_port,
}
use mosquitto_operator.Config.{
  broker_port, auth_mount_path, tls_mount_path, tls_cert_key, mqtt_port, mqtts_port,
}
use mosquitto_operator.Exporter.Process
use mosquitto_operator.Exporter.Process.{config_of}
use mosquitto_operator.Reloader.Copies.{IsCopy, NeverTemp, sync_copies, failed_sync_keeps_whole}
use mosquitto_operator.Reloader.Defs.{World, sync, Synced, done, failed}
use mosquitto_operator.Reloader.Program.{
  Settings, settings_of, reload_settings, reload_main, reload, Ended,
}
use mosquitto_operator.Reloader.Rounds.{Certificates, started, exit_code, copies_of}

-- The arguments behind the name of the entry point, if the container starts the reloader.
abbrev pub reloader_args : List Bytes → Option (List Bytes)
reloader_args [] = none
reloader_args (arg ∷ args) = if arg =? codes "reload" then some args else none

-- What the reloader is told by the arguments of a container.
abbrev pub reloader_reads : Syntax → Container → Option (Result (Dict Bytes))
reloader_reads syn c = elim (reloader_args c.args) [
  | none ↦ none
  | some args ↦ some (reload_settings syn args)
]

abbrev pub Reads : Option (Result (Dict Bytes)) → Settings → Type 0
Reads r s = (values : Dict Bytes) × (r ≡ some (ok values)) × (settings_of values ≡ s)

abbrev pub mount_paths : Container → List Bytes
mount_paths c = map (λ (v : VolumeMount). v.mount_path) c.volume_mounts

-- The settings of a reloader of a broker pod.
abbrev pub pod_settings : Bool → Bytes → Settings
pod_settings once tls_dir = record {
  config = record {
    source = auth_secret_mount_path;
    files = passwd_key ∷ acl_key ∷ [];
    process = codes "mosquitto";
    proc_root = codes "/proc";
    tls_dir = tls_dir;
  };
  target = auth_mount_path;
  once = once;
  interval = codes "2s";
}

abbrev pub init_container : PodOptions → Container
init_container opts = build_reload_container auth_init_container_name opts (codes "--once" ∷ []) []

abbrev pub ReadsConfig : Result (Dict Bytes) → Process.Config → Type 0
ReadsConfig r c = (values : Dict Bytes) × (r ≡ ok values) × (config_of values ≡ c)

-- The configuration of the exporter of a broker pod.
abbrev pub pod_config : Mosquitto → Process.Config
pod_config m = record {
  broker =
      (if is_tls_enabled m then codes "ssl://127.0.0.1:" else codes "tcp://127.0.0.1:")
      ++ itoa (broker_port m);
  username = exporter_username;
  password_file = exporter_secret_mount_path ++ codes "/password";
  tls_cert = if is_tls_enabled m then tls_mount_path ++ b'/' ∷ tls_cert_key else [];
  listen = b':' ∷ itoa exporter_port;
}

abbrev pub container_ports : Container → List ℕ
container_ports c = map (λ (p : ContainerPort). p.container_port) c.ports
