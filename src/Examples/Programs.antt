-- ===== src/Examples/Programs.antt =====
-- The programs of cmd/main.go and of the containers of a pod at concrete inputs.
use mosquitto_operator.Base.{ℕ, ◌≡◌, refl, true, false, none, some, [], ◌∷◌, codes, bytes_discrete}
use mosquitto_operator.Base.Results.{Result, ok}
use mosquitto_operator.Base.Strings.{has_prefix}
use mosquitto_operator.Examples.Samples.{sample_broker}
use mosquitto_operator.Examples.Reloads.{world, certificates, passwd-NeverTemp, acl-NeverTemp}
use mosquitto_operator.Containers.{init_container, pod_settings}
use mosquitto_operator.Containers.Init.{
  runs, IsEnd, IsMounted, copied_once, init-run, init_container_ends,
}
use mosquitto_operator.Auth.Authenticated.{LetsIn, input_names}
use mosquitto_operator.Auth.Files.{passwd_key, acl_key}
use mosquitto_operator.Auth.Settles.{winners_of}
use mosquitto_operator.Base.{All, Bytes, ◌||◌, ◌++◌}
use mosquitto_operator.Base.Dict.{Dict, keys, member, insert, erase}
use mosquitto_operator.Reloader.Defs.{
  World, sync, synced, sync_all, sync_one, copied, compared, after_write, write_atomic, written,
  renamed, write_fault, read_source, read_all, resolve_data,
}
use mosquitto_operator.Reloader.Rounds.{exit_code}
use mosquitto_operator.Examples.Reloads.{found}
use mosquitto_operator.Examples.Samples.{sample_crypto}
use mosquitto_operator.Operator.{OperatorFlags, new_reconciler, manager_options}
use mosquitto_operator.Operator.Grants.{in_cache, cache_covers_grants}
use mosquitto_operator.Controller.Passes.{namespace_granted}
use mosquitto_operator.Reloader.Program.{Ended}
use mosquitto_operator.Base.Flags.{Syntax}
use mosquitto_operator.Builder.Pods.{PodOptions, auth_secret_mount_path}
use mosquitto_operator.Examples.Converges.{fresh, resources_done}
use mosquitto_operator.Examples.Clusters.{quiet_outside, operator_of}
use mosquitto_operator.Delivered.{secret_files, pass_reaches_pod}
use mosquitto_operator.Controller.Rendered.{gathering}
use mosquitto_operator.Controller.Users.{Gathered}
use mosquitto_operator.Auth.Defs.{exporter_username}
use mosquitto_operator.Controller.Passes.{reconcile_resources}
use mosquitto_operator.Api.{is_metrics_enabled}
use mosquitto_operator.Auth.Files.{hashes}
use mosquitto_operator.Base.Decimal.{pos}
use mosquitto_operator.Base.Dict.{get_or, lookup}

abbrev plain_syntax : Syntax
plain_syntax = record { is_int = λ s. true; is_duration = λ s. true }

abbrev image : PodOptions
image = record { reloader_image = codes "operator:1" }

init_container_ends_example :
    (e : Ended) × (runs plain_syntax certificates (init_container image) (world none none) [] []
      ≡ some e)
    × IsEnd (world none none) [] e
init_container_ends_example =
    init_container_ends plain_syntax certificates image (world none none) [] []
      (passwd-NeverTemp none none) (acl-NeverTemp none none)

-- Two namespaces, one of them twice.
abbrev flags : OperatorFlags
flags = record {
  metrics_addr = codes ":8080";
  probe_addr = codes ":8081";
  enable_leader_election = true;
  max_concurrent_reconciles = pos 4;
  secret_security = true;
  reloader_image = codes "operator:1";
  secret_namespaces = codes "home, lab,home";
}

cache_covers_grants_example :
    namespace_granted (new_reconciler flags) (codes "lab")
    ≡ in_cache (manager_options flags).secret_cache (codes "lab")
cache_covers_grants_example = cache_covers_grants flags (codes "lab")

-- The Secret of the broker after the pass, in the mount of a pod that starts.
abbrev secret_mount : Dict Bytes
secret_mount =
    secret_files sample_broker
      (reconcile_resources quiet_outside (operator_of (codes "home")) sample_broker fresh).1.cluster

abbrev pod_mount : Dict Bytes
pod_mount =
    (auth_secret_mount_path ++ codes "/passwd", get_or passwd_key [] secret_mount)
    ∷ (auth_secret_mount_path ++ codes "/acl", get_or acl_key [] secret_mount)
    ∷ []

unfoldable reading_mount : Bytes → Result Bytes
reading_mount path = found (lookup path pod_mount)

abbrev starting : World
starting = record (world none none) { read_file = reading_mount }

is_mounted : IsMounted starting secret_mount
unfolding reading_mount lookup resolve_data bytes_discrete
is_mounted = (refl, refl)

abbrev started_pod : Ended
started_pod = copied_once starting [] (sync starting (pod_settings true []).config [])

started_well : ◌≡◌ {A = ℕ} started_pod.code 0
unfolding copied_once exit_code reading_mount lookup resolve_data bytes_discrete sync synced
    read_source read_all get_or insert erase has_prefix sync_all sync_one copied compared
    after_write write_atomic written renamed write_fault
started_well = refl

pass_reaches_pod_example :
    (g : Gathered) × ((gathering quiet_outside (operator_of (codes "home")) sample_broker fresh).0
      ≡ ok g)
    × All
        (λ i. LetsIn sample_crypto started_pod.left.copies i.username i.password)
        (winners_of sample_crypto g.inputs).0
    × All (λ pw. LetsIn sample_crypto started_pod.left.copies exporter_username pw) []
    × (member (codes "guest") (keys (hashes started_pod.left.copies))
        ≡ (member (codes "guest") (input_names (winners_of sample_crypto g.inputs).0) || false))
unfolding is_metrics_enabled
pass_reaches_pod_example =
    pass_reaches_pod quiet_outside (operator_of (codes "home")) sample_broker fresh 1 plain_syntax
      certificates image starting [] [] started_pod (codes "guest") (passwd-NeverTemp none none)
      (acl-NeverTemp none none) resources_done is_mounted
      (init-run plain_syntax certificates image starting [] []) started_well
