-- ===== src/Operator.antt =====
-- cmd/main.go: the flags of the operator, what it hands to the manager and to the reconciler, and
-- its program.
pub mod Grants
use mosquitto_operator.Base.{
  ℕ, ◌≡◌, Bool, true, false, not, Option, none, some, List, [], ◌∷◌, ◌++◌, Bytes, codes, ◌=?◌,
  if◌then◌else◌,
}
use mosquitto_operator.Base.Decimal.{ℤ, itoa}
use mosquitto_operator.Base.Dict.{Dict, get_or, member}
use mosquitto_operator.Base.Flags.{FlagKind, text, switch, number, Syntax, parse_flags, is_set}
use mosquitto_operator.Base.Results.{Result, ok, err, Error, external, new, wrapped}
use mosquitto_operator.Base.Runes.{trim_space}
use mosquitto_operator.Base.Strings.{split}
use mosquitto_operator.Controller.Cluster.{secret, Stored}
use mosquitto_operator.Controller.Objects.{Reconciler}
use mosquitto_operator.Controller.Watches.{strip_secret}
use mosquitto_operator.Controller.Watches.Setup.{
  Controller, WatchedKind, setup_with_manager, default_max_concurrent_reconciles,
}

abbrev pub default_reloader_image : Bytes
default_reloader_image = codes "guidedtraffic/mosquitto-operator"

pub record OperatorFlags : Type 0 where
  pub metrics_addr : Bytes
  pub probe_addr : Bytes
  pub enable_leader_election : Bool
  pub max_concurrent_reconciles : ℤ
  pub secret_security : Bool
  pub reloader_image : Bytes
  pub secret_namespaces : Bytes

-- The loop over the items of the list.
unfoldable pub kept_namespaces : List Bytes → List Bytes
kept_namespaces [] = []
kept_namespaces (item ∷ items) =
    let rest = kept_namespaces items in
    if trim_space item =? [] then rest else trim_space item ∷ rest

unfoldable pub namespaces : OperatorFlags → List Bytes
namespaces f = kept_namespaces (split f.secret_namespaces b',')

unfoldable pub operator_flags : Dict FlagKind
operator_flags =
    (codes "metrics-bind-address", text)
    ∷ (codes "health-probe-bind-address", text)
    ∷ (codes "leader-elect", switch)
    ∷ (codes "max-concurrent-reconciles", number)
    ∷ (codes "secret-security", switch)
    ∷ (codes "reloader-image", text)
    ∷ (codes "secret-namespaces", text)
    ∷ []

-- `version` is set when the program is built.
unfoldable pub operator_defaults : Bytes → Dict Bytes
operator_defaults version =
    (codes "metrics-bind-address", codes ":8080")
    ∷ (codes "health-probe-bind-address", codes ":8081")
    ∷ (codes "leader-elect", codes "false")
    ∷ (codes "max-concurrent-reconciles", itoa default_max_concurrent_reconciles)
    ∷ (codes "secret-security", codes "false")
    ∷ (codes "reloader-image", default_reloader_image ++ b':' ∷ version)
    ∷ (codes "secret-namespaces", [])
    ∷ []

-- `parse_int` is `strconv.ParseInt(s, 0, strconv.IntSize)` on a text that the flag accepted.
unfoldable pub flags_of : (Bytes → ℤ) → Dict Bytes → OperatorFlags
flags_of parse_int values = record {
  metrics_addr = get_or (codes "metrics-bind-address") [] values;
  probe_addr = get_or (codes "health-probe-bind-address") [] values;
  enable_leader_election = is_set (codes "leader-elect") values;
  max_concurrent_reconciles = parse_int (get_or (codes "max-concurrent-reconciles") [] values);
  secret_security = is_set (codes "secret-security") values;
  reloader_image = get_or (codes "reloader-image") [] values;
  secret_namespaces = get_or (codes "secret-namespaces") [] values;
}

-- The keys of the map that is filled in the order of the list.
unfoldable pub distinct_namespaces : List Bytes → List Bytes
distinct_namespaces [] = []
distinct_namespaces (ns ∷ rest) =
    let others = distinct_namespaces rest in if member ns others then others else ns ∷ others

-- The groups of types that `init` registers in the scheme: those of client-go and the operator's own.
pub data TypeGroup : Type 0 where
  client_go : TypeGroup
  mko_v1 : TypeGroup

unfoldable pub scheme : List TypeGroup
scheme = client_go ∷ mko_v1 ∷ []

-- The options of the manager. `secret_transform` is what the cache keeps of a Secret. `secret_cache` lists the namespaces whose Secrets are cached; none
-- listed are all namespaces.
pub record ManagerOptions : Type 0 where
  pub scheme : List TypeGroup
  pub metrics_bind_address : Bytes
  pub health_probe_bind_address : Bytes
  pub leader_election : Bool
  pub leader_election_id : Bytes
  pub secret_transform : Stored secret → Stored secret
  pub secret_cache : List Bytes

unfoldable pub manager_options : OperatorFlags → ManagerOptions
manager_options f = record {
  scheme = scheme;
  metrics_bind_address = f.metrics_addr;
  health_probe_bind_address = f.probe_addr;
  leader_election = f.enable_leader_election;
  leader_election_id = codes "mosquitto-operator.mko.gtrfc.com";
  secret_transform = strip_secret;
  secret_cache = distinct_namespaces (namespaces f);
}

unfoldable pub new_reconciler : OperatorFlags → Reconciler
new_reconciler f = record {
  secret_security = f.secret_security;
  reloader_image = f.reloader_image;
  secret_namespaces = namespaces f;
}

-- The outcomes of the manager's calls.
pub record Manager : Type 0 where
  pub new_manager : ManagerOptions → Option Error
  pub index_field : WatchedKind → Bytes → Option Error
  pub complete : Reconciler → Controller → Option Error
  pub add_healthz_check : Option Error
  pub add_readyz_check : Option Error
  pub start : Option Error

-- `if err != nil { …; os.Exit(1) }`, and the rest of the program.
abbrev exit_on : Option Error → ℕ → ℕ
exit_on none rest = rest
exit_on (some e) rest = 1

-- `flag.ExitOnError`: the program ends without an error where help was asked for.
usage_code : Error → ℕ
usage_code (external e) = 0
usage_code (new m) = 2
usage_code (wrapped m e) = 2

unfoldable pub start_manager : Manager → OperatorFlags → ℕ
start_manager mgr f = exit_on (mgr.new_manager (manager_options f)) (
    exit_on
      (setup_with_manager f.max_concurrent_reconciles mgr.index_field
        (mgr.complete (new_reconciler f)))
      (exit_on mgr.add_healthz_check (exit_on mgr.add_readyz_check (exit_on mgr.start 0))))

unfoldable pub operate : Syntax → (Bytes → ℤ) → Dict FlagKind → Bytes → Manager → List Bytes → ℕ
unfolding usage_code
operate syn parse_int zap_flags version mgr args =
    elim (parse_flags syn (operator_flags ++ zap_flags) (operator_defaults version) args) [
      | err e ↦ usage_code e
      | ok values ↦ start_manager mgr (flags_of parse_int values)
    ]

-- The exit code of `manager` with these arguments; `reload` runs the reloader with its own.
-- `zap_flags` are the flags of controller-runtime's logging.
unfoldable pub main :
    Syntax → (Bytes → ℤ) → Dict FlagKind → Bytes → Manager → (List Bytes → ℕ) → List Bytes → ℕ
main syn parse_int zap_flags version mgr reload [] = operate syn parse_int zap_flags version mgr []
main syn parse_int zap_flags version mgr reload (arg ∷ args) =
    if arg =? codes "reload"
    then reload args
    else operate syn parse_int zap_flags version mgr (arg ∷ args)
