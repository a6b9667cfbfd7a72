-- ===== src/Builder/Pods.antt =====
-- internal/builder/statefulset.go and affinity.go: the broker pod and its containers.
use mosquitto_operator.Base.{
  ℕ, Bool, true, false, Option, none, some, List, [], ◌∷◌, ◌++◌, Bytes, codes, ◌=?◌, if◌then◌else◌,
}
use mosquitto_operator.Base.Decimal.{itoa}
use mosquitto_operator.Api.{
  Mosquitto, ResourceRequirements, MosquittoTls, is_tls_enabled, is_metrics_enabled,
  is_storage_enabled, anti_affinity_mode, anti_affinity_mode_off, anti_affinity_mode_hard,
  anti_affinity_weight, anti_affinity_topology_key,
}
use mosquitto_operator.Labels.{selector_labels, auth_secret_name}
use mosquitto_operator.Auth.{acl_key, passwd_key}
use mosquitto_operator.Config.{
  config_mount_path, config_key, data_mount_path, auth_mount_path, tls_mount_path, tls_cert_key,
  mqtt_port, mqtts_port, broker_port, broker_port_name, config_map_name,
}
use mosquitto_operator.Builder.Objects.{
  VolumeSource, config_map, secret, empty_dir, Volume, VolumeMount, Probe, SecurityContext,
  Container, PodAffinityTerm, PodAntiAffinity, PodSpec,
}

abbrev pub default_image : Bytes
default_image = codes "eclipse-mosquitto:2.1.2-alpine"

abbrev pub broker_container_name : Bytes
broker_container_name = codes "mosquitto"

abbrev pub config_check_container_name : Bytes
config_check_container_name = codes "config-check"

abbrev pub auth_init_container_name : Bytes
auth_init_container_name = codes "auth-init"

abbrev pub reloader_container_name : Bytes
reloader_container_name = codes "reloader"

abbrev pub exporter_container_name : Bytes
exporter_container_name = codes "exporter"

abbrev pub operator_binary : Bytes
operator_binary = codes "/app/manager"

abbrev pub exporter_binary : Bytes
exporter_binary = codes "/app/exporter"

abbrev pub exporter_port_name : Bytes
exporter_port_name = codes "metrics"

abbrev pub exporter_password_key : Bytes
exporter_password_key = codes "exporter-password"

abbrev pub exporter_secret_volume_name : Bytes
exporter_secret_volume_name = codes "exporter-secret"

abbrev pub exporter_secret_mount_path : Bytes
exporter_secret_mount_path = codes "/mosquitto/exporter"

abbrev pub config_volume_name : Bytes
config_volume_name = codes "config"

abbrev pub tls_volume_name : Bytes
tls_volume_name = codes "tls"

abbrev pub data_volume_name : Bytes
data_volume_name = codes "data"

abbrev pub config_check_scratch_volume_name : Bytes
config_check_scratch_volume_name = codes "config-check-scratch"

abbrev pub auth_secret_volume_name : Bytes
auth_secret_volume_name = codes "auth-secret"

abbrev pub auth_volume_name : Bytes
auth_volume_name = codes "auth"

abbrev pub auth_secret_mount_path : Bytes
auth_secret_mount_path = codes "/mosquitto/auth-secret"

abbrev pub protocol_tcp : Bytes
protocol_tcp = codes "TCP"

abbrev pub exporter_port : ℕ
exporter_port = 9234

abbrev pub broker_user_id : ℕ
broker_user_id = 1883

abbrev pub volume_default_mode : ℕ
volume_default_mode = 420

abbrev pub auth_secret_mode : ℕ
auth_secret_mode = 288

-- The operator's own image, which auth-init, the reloader and the exporter run.
pub record PodOptions : Type 0 where
  pub reloader_image : Bytes

abbrev pub reloader_resources : ResourceRequirements
reloader_resources = record {
  requests = (codes "cpu", codes "10m") ∷ (codes "memory", codes "32Mi") ∷ [];
  limits = (codes "memory", codes "64Mi") ∷ [];
}

unfoldable pub resolve_image : Mosquitto → Bytes
resolve_image m = if m.spec.image =? [] then default_image else m.spec.image

abbrev anti_affinity_term : Mosquitto → PodAffinityTerm
anti_affinity_term m = record {
  match_labels = selector_labels m;
  topology_key = anti_affinity_topology_key;
}

unfoldable pub build_pod_anti_affinity : Mosquitto → Option PodAntiAffinity
build_pod_anti_affinity m =
    if anti_affinity_mode m =? anti_affinity_mode_off
    then none
    else if anti_affinity_mode m =? anti_affinity_mode_hard
    then some (record { required = anti_affinity_term m ∷ []; preferred = [] })
    else some
        (record { required = []; preferred = (anti_affinity_weight, anti_affinity_term m) ∷ [] })

abbrev pub container_security_context : SecurityContext
container_security_context = record {
  allow_privilege_escalation = false;
  read_only_root_filesystem = true;
  drop = codes "ALL" ∷ [];
}

abbrev mount : Bytes → Bytes → Bool → VolumeMount
mount name path read_only = record { name = name; mount_path = path; read_only = read_only }

-- `if enabled { list = append(list, …) }`
abbrev appended_if {ℓ} : {A : Type ℓ} → Bool → List A → List A → List A
appended_if true xs extra = xs ++ extra
appended_if false xs extra = xs

unfoldable pub build_config_check_container : Mosquitto → Container
build_config_check_container m = record {
  name = config_check_container_name;
  image = resolve_image m;
  command =
      codes "/usr/sbin/mosquitto"
      ∷ codes "-c"
      ∷ (config_mount_path ++ b'/' ∷ config_key)
      ∷ codes "--test-config"
      ∷ [];
  args = [];
  ports = [];
  volume_mounts =
      mount config_volume_name config_mount_path true
      ∷ mount config_check_scratch_volume_name data_mount_path false
      ∷ [];
  readiness_probe = none;
  liveness_probe = none;
  resources = m.spec.resources;
  security_context = container_security_context;
}

unfoldable pub build_reload_container :
    Bytes → PodOptions → List Bytes → List VolumeMount → Container
build_reload_container name opts extra_args extra_mounts = record {
  name = name;
  image = opts.reloader_image;
  command = operator_binary ∷ [];
  args =
      codes "reload"
      ∷ codes "--source"
      ∷ auth_secret_mount_path
      ∷ codes "--target"
      ∷ auth_mount_path
      ∷ extra_args;
  ports = [];
  volume_mounts =
      mount auth_secret_volume_name auth_secret_mount_path true
      ∷ mount auth_volume_name auth_mount_path false
      ∷ extra_mounts;
  readiness_probe = none;
  liveness_probe = none;
  resources = reloader_resources;
  security_context = container_security_context;
}

unfoldable pub build_reloader_sidecar : Mosquitto → PodOptions → Container
build_reloader_sidecar m opts =
    if is_tls_enabled m
    then build_reload_container reloader_container_name opts
        (codes "--tls-dir" ∷ tls_mount_path ∷ []) (mount tls_volume_name tls_mount_path true ∷ [])
    else build_reload_container reloader_container_name opts [] []

unfoldable pub build_exporter_container : Mosquitto → PodOptions → Container
build_exporter_container m opts = record {
  name = exporter_container_name;
  image = opts.reloader_image;
  command = exporter_binary ∷ [];
  args =
      appended_if (is_tls_enabled m)
        (codes "--broker"
          ∷ (if is_tls_enabled m
              then codes "ssl://127.0.0.1:" ++ itoa mqtts_port
              else codes "tcp://127.0.0.1:" ++ itoa mqtt_port)
          ∷ codes "--password-file"
          ∷ (exporter_secret_mount_path ++ codes "/password")
          ∷ codes "--listen"
          ∷ (b':' ∷ itoa exporter_port)
          ∷ [])
        (codes "--tls-cert" ∷ (tls_mount_path ++ b'/' ∷ tls_cert_key) ∷ []);
  ports =
      record { name = exporter_port_name; container_port = exporter_port; protocol = protocol_tcp }
      ∷ [];
  volume_mounts =
      appended_if (is_tls_enabled m)
        (mount exporter_secret_volume_name exporter_secret_mount_path true ∷ [])
        (mount tls_volume_name tls_mount_path true ∷ []);
  readiness_probe = none;
  liveness_probe = none;
  resources = reloader_resources;
  security_context = container_security_context;
}

abbrev probe : ℕ → ℕ → ℕ → ℕ → ℕ → Probe
probe port delay period timeout failures = record {
  port = port;
  initial_delay_seconds = delay;
  period_seconds = period;
  timeout_seconds = timeout;
  success_threshold = 1;
  failure_threshold = failures;
}

unfoldable pub build_broker_container : Mosquitto → Container
build_broker_container m = record {
  name = broker_container_name;
  image = resolve_image m;
  command =
      codes "/usr/sbin/mosquitto" ∷ codes "-c" ∷ (config_mount_path ++ b'/' ∷ config_key) ∷ [];
  args = [];
  ports =
      record { name = broker_port_name m; container_port = broker_port m; protocol = protocol_tcp }
      ∷ [];
  volume_mounts =
      appended_if (is_tls_enabled m)
        (mount config_volume_name config_mount_path true
          ∷ mount data_volume_name data_mount_path false
          ∷ mount auth_volume_name auth_mount_path true
          ∷ [])
        (mount tls_volume_name tls_mount_path true ∷ []);
  readiness_probe = some (probe (broker_port m) 5 5 3 3);
  liveness_probe = some (probe (broker_port m) 15 10 5 5);
  resources = m.spec.resources;
  security_context = container_security_context;
}

abbrev volume : Bytes → VolumeSource → Volume
volume name source = record { name = name; source = source }

-- `m.Spec.TLS.SecretName`, which is read behind `IsTLSEnabled` only.
tls_secret_name : Option MosquittoTls → Bytes
tls_secret_name none = []
tls_secret_name (some t) = t.secret_name

unfoldable pub pod_volumes : Mosquitto → List Volume
unfolding tls_secret_name
pod_volumes m =
    appended_if (is_metrics_enabled m)
      ((if is_storage_enabled m
          then without_storage m
          else without_storage m ++ volume data_volume_name empty_dir ∷ [])
        ++ volume config_check_scratch_volume_name empty_dir ∷ [])
      (volume exporter_secret_volume_name (
          secret (auth_secret_name m) ((exporter_password_key, codes "password") ∷ [])
            auth_secret_mode)
        ∷ [])
  where
    without_storage : Mosquitto → List Volume
    without_storage m =
        appended_if (is_tls_enabled m)
          (volume config_volume_name (config_map (config_map_name m) volume_default_mode)
            ∷ volume auth_secret_volume_name (
                secret (auth_secret_name m) ((acl_key, acl_key) ∷ (passwd_key, passwd_key) ∷ [])
                  auth_secret_mode)
            ∷ volume auth_volume_name empty_dir
            ∷ [])
          (volume tls_volume_name (secret (tls_secret_name m.spec.tls) [] volume_default_mode) ∷ [])

unfoldable pub pod_containers : Mosquitto → PodOptions → List Container
pod_containers m opts =
    appended_if (is_metrics_enabled m)
      (build_broker_container m ∷ build_reloader_sidecar m opts ∷ [])
      (build_exporter_container m opts ∷ [])

unfoldable pub pod_init_containers : Mosquitto → PodOptions → List Container
pod_init_containers m opts =
    build_reload_container auth_init_container_name opts (codes "--once" ∷ []) []
    ∷ build_config_check_container m
    ∷ []

unfoldable pub build_pod_spec : Mosquitto → PodOptions → PodSpec
build_pod_spec m opts = record {
  automount_service_account_token = false;
  security_context = record {
    run_as_non_root = true;
    run_as_user = broker_user_id;
    run_as_group = broker_user_id;
    fs_group = broker_user_id;
    seccomp_profile = codes "RuntimeDefault";
  };
  share_process_namespace = true;
  init_containers = pod_init_containers m opts;
  containers = pod_containers m opts;
  volumes = pod_volumes m;
  affinity = build_pod_anti_affinity m;
}
