-- ===== src/Examples/Clusters.antt =====
-- A cluster with one broker and one user, and code outside the repository that makes no fault.
use mosquitto_operator.Base.{
  ℕ, ◌≡◌, ◌≢◌, refl, true, none, some, List, [], ◌∷◌, Bytes, codes, ◌=?◌, =?_refl, if◌then◌else◌,
  arith, Bool-cases, inl, inr, bytes_discrete,
}
use mosquitto_operator.Api.{Mosquitto, MosquittoUser, Condition}
use mosquitto_operator.Builder.Services.{build_config_map}
use mosquitto_operator.Controller.Cluster.{
  Key, config_map, service, stateful_set, secret, Objects, ◌=key◌,
}
use mosquitto_operator.Controller.Conditions.{find}
use mosquitto_operator.Controller.Exec.{Outside, State}
use mosquitto_operator.Controller.Objects.{Reconciler}
use mosquitto_operator.Controller.Foreign.{AreNamed}
use mosquitto_operator.Controller.Cluster.{key_of_test}
use mosquitto_operator.Examples.Brokers.{encodings}
use mosquitto_operator.Examples.Samples.{sample_broker, sample_crypto}

abbrev pub set_condition : List Condition → Condition → List Condition
set_condition [] c = c ∷ []
set_condition (d ∷ ds) c = if d.kind =? c.kind then c ∷ ds else d ∷ set_condition ds c

pub find-set_condition :
    (cs : List Condition) (c : Condition) → find c.kind (set_condition cs c) ≡ some c
unfolding find
find-set_condition [] c = rw (=?_refl c.kind) refl
find-set_condition (d ∷ ds) c = elim (Bool-cases (d.kind =? c.kind)) [
  | inl q ↦ rw (q, =?_refl c.kind) refl
  | inr q ↦ rw (q, q) (find-set_condition ds c)
]

pub find-set_condition_ne :
    (kind : Bytes) (cs : List Condition) (c : Condition)
    → kind ≢ c.kind
    → find kind (set_condition cs c) ≡ find kind cs
unfolding find
find-set_condition_ne kind [] c n = ground arith
find-set_condition_ne kind (d ∷ ds) c n = ground (arith, find-set_condition_ne kind ds c n)

pub set_condition_settled :
    (cs : List Condition) (c : Condition) → find c.kind cs ≡ some c → set_condition cs c ≡ cs
unfolding find
set_condition_settled [] c h = ground arith
set_condition_settled (d ∷ ds) c h = ground (arith, set_condition_settled ds c)

abbrev pub quiet_outside : Outside
quiet_outside = record {
  fault = λ calls call. none;
  owner_fault = λ k key. none;
  sprintf = λ m. m.format;
  error_text = λ e. codes "failed";
  conditions = record {
    set = set_condition;
    find-set = find-set_condition;
    find-set_ne = find-set_condition_ne;
    set_settled = set_condition_settled;
  };
  encodings = encodings;
  crypto = sample_crypto;
}

-- The operator may read the Secrets of one namespace, and asks for consent.
abbrev pub operator_of : Bytes → Reconciler
operator_of namespace = record {
  secret_security = true;
  reloader_image = codes "operator:1";
  secret_namespaces = namespace ∷ [];
}

abbrev pub home_key : Key
home_key = record { namespace = codes "home"; name = codes "broker" }

abbrev pub sample_user : MosquittoUser
sample_user = record {
  meta = record {
    name = codes "sensor-1";
    namespace = codes "home";
    uid = codes "u-2";
    generation = 1;
    creation_timestamp = 20;
    deletion_timestamp = none;
    labels = [];
    annotations = [];
    controller = none;
  };
  spec = record {
    broker_ref = codes "broker";
    credentials_secret = record {
      name = codes "sensor-secret";
      username_key = [];
      password_key = [];
    };
    acls = [];
  };
  status = record { observed_generation = 0; username = []; conditions = [] };
}

-- A ConfigMap of the broker's name that somebody else made.
abbrev pub foreign_objects : Objects
foreign_objects config_map key =
    some (record { controller = none; content = build_config_map sample_broker })
foreign_objects service key = none
foreign_objects stateful_set key = none
foreign_objects secret key = none

abbrev pub start : State ℕ
start = record {
  cluster = record {
    objects = foreign_objects;
    brokers = λ key. if home_key =key key then some sample_broker else none;
    users = sample_user ∷ [];
    ready_replicas = λ key. 1;
  };
  trace = [];
  random = 0;
}

pub broker-stored : start.cluster.brokers home_key ≡ some sample_broker
unfolding bytes_discrete
broker-stored = refl

some_broker : (m : Mosquitto) → some sample_broker ≡ some m → sample_broker ≡ m
some_broker m h = cc

pub start-AreNamed : AreNamed start.cluster
start-AreNamed key m = elim (Bool-cases (home_key =key key)) [
  | inr q ↦ rw q (λ h. ground arith)
  | inl q ↦ rw q (λ h. rw (← some_broker m h, ← key_of_test home_key key q) (refl, refl))
]
