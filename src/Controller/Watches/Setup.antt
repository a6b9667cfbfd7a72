-- ===== src/Controller/Watches/Setup.antt =====
-- internal/controller/watches.go: the indexes and the watches that the controller registers.
use mosquitto_operator.Base.{
  ℕ, suc, zero, Bool, true, false, Option, none, some, List, [], ◌∷◌, Bytes, codes,
}
use mosquitto_operator.Base.Decimal.{ℤ, pos, negsuc}
use mosquitto_operator.Base.Results.{Error}

abbrev pub user_broker_field : Bytes
user_broker_field = codes "spec.brokerRef.name"

abbrev pub user_secret_field : Bytes
user_secret_field = codes "spec.credentialsSecret.name"

abbrev pub tls_secret_field : Bytes
tls_secret_field = codes "spec.tls.secretName"

-- The kinds of object that the controller watches.
pub data WatchedKind : Type 0 where
  mosquitto mosquitto_user stateful_set config_map service secret : WatchedKind

abbrev then_ : Option Error → Option Error → Option Error
then_ none rest = rest
then_ (some e) rest = some e

-- The first registration that fails; `index` is `IndexField` with its outcome.
unfoldable pub index_fields : (WatchedKind → Bytes → Option Error) → Option Error
index_fields index =
    then_ (index mosquitto_user user_broker_field)
      (then_ (index mosquitto_user user_secret_field) (index mosquitto tls_secret_field))

abbrev pub default_max_concurrent_reconciles : ℕ
default_max_concurrent_reconciles = 4

unfoldable pub max_concurrent_reconciles : ℤ → ℕ
max_concurrent_reconciles (pos zero) = default_max_concurrent_reconciles
max_concurrent_reconciles (pos (suc n)) = suc n
max_concurrent_reconciles (negsuc n) = default_max_concurrent_reconciles

-- What wakes a pass: a watched kind, whether only changes of its generation do, and whose pass.
pub data Wakes : Type 0 where
  itself its_owner its_brokers : Wakes

pub record Watch : Type 0 where
  pub kind : WatchedKind
  pub generation_only : Bool
  pub wakes : Wakes

pub record Controller : Type 0 where
  pub max_concurrent : ℕ
  pub watches : List Watch

abbrev watch : WatchedKind → Bool → Wakes → Watch
watch kind generation_only wakes = record {
  kind = kind;
  generation_only = generation_only;
  wakes = wakes;
}

unfoldable pub controller_of : ℤ → Controller
controller_of configured = record {
  max_concurrent = max_concurrent_reconciles configured;
  watches =
      watch mosquitto true itself
      ∷ watch stateful_set false its_owner
      ∷ watch config_map false its_owner
      ∷ watch service false its_owner
      ∷ watch secret false its_owner
      ∷ watch mosquitto_user true its_brokers
      ∷ watch secret false its_brokers
      ∷ [];
}

-- `complete` is the outcome of `Complete` for the controller that was built.
unfoldable pub setup_with_manager :
    ℤ → (WatchedKind → Bytes → Option Error) → (Controller → Option Error) → Option Error
setup_with_manager configured index complete =
    then_ (index_fields index) (complete (controller_of configured))
