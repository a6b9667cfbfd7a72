-- ===== src/Examples/Samples.antt =====
-- The inputs of the examples.
use mosquitto_operator.Base.{
  ℕ, zero, suc, ◌≡◌, refl, ◌%◌, none, [], ◌∷◌, Bytes, IsByte, All, codes, length, arith,
}
use mosquitto_operator.Base.Results.{ok}
use mosquitto_operator.Api.{Mosquitto, MosquittoSpec, MosquittoAcl, ObjectMeta, access_read_write}
use mosquitto_operator.Auth.Defs.{Input}
use mosquitto_operator.Auth.Hash.{Crypto}

-- As many copies of a byte as were asked for.
abbrev pub fill : ℕ → ℕ → Bytes
fill zero b = []
fill (suc n) b = b ∷ fill n b

pub length-fill : (n b : ℕ) → length (fill n b) ≡ n
length-fill zero b = refl
length-fill (suc n) b = omega (arith, length-fill n b)

pub fill-IsByte : (n b : ℕ) → IsByte b → All IsByte (fill n b)
fill-IsByte zero b h = tt
fill-IsByte (suc n) b h = (h, fill-IsByte n b h)

pub ok-first : (p q : Bytes × ℕ) → ok p ≡ ok q → p.0 ≡ q.0
ok-first p q h = cc

pub ok-one : (s t : Bytes) → ok s ≡ ok t → s ≡ t
ok-one s t h = cc

-- A source of salts of zeros, which counts them, and a key that is made of the password's length.
abbrev pub sample_crypto : Crypto
sample_crypto = record {
  Reader = ℕ;
  read_full = λ n r. ok (fill n 0, suc r);
  read_full_length = λ n r r' s h. rw (← ok-first (fill n 0, suc r) (s, r') h) (length-fill n 0);
  read_full_bytes =
      λ n r r' s h. rw (← ok-first (fill n 0, suc r) (s, r') h) (fill-IsByte n 0 (omega arith));
  pbkdf2_key = λ password salt iterations n. ok (fill n (length password % 256));
  pbkdf2_key_length = λ password salt iterations n key h.
      rw (← ok-one (fill n (length password % 256)) key h) (length-fill n (length password % 256));
  pbkdf2_key_bytes = λ password salt iterations n key h.
      rw (← ok-one (fill n (length password % 256)) key h)
        (fill-IsByte n (length password % 256) (omega arith));
}

abbrev pub sample_meta : ObjectMeta
sample_meta = record {
  name = codes "broker";
  namespace = codes "home";
  uid = codes "u-1";
  generation = 1;
  creation_timestamp = 1;
  deletion_timestamp = none;
  labels = [];
  annotations = [];
  controller = none;
}

abbrev pub sample_spec : MosquittoSpec
sample_spec = record {
  replicas = 1;
  image = codes "eclipse-mosquitto:2.1.2-alpine";
  config = codes "max_keepalive 60";
  anti_affinity = [];
  tls = none;
  resources = record { requests = []; limits = [] };
  storage = none;
  pod_labels = (codes "team", codes "iot") ∷ (codes "app.kubernetes.io/name", codes "mine") ∷ [];
  pod_annotations = [];
  metrics = none;
}

abbrev pub sample_broker : Mosquitto
sample_broker = record {
  meta = sample_meta;
  spec = sample_spec;
  status = record {
    phase = [];
    ready_replicas = 0;
    observed_generation = 0;
    users = 0;
    conditions = [];
  };
}

abbrev acl : MosquittoAcl
acl = record { topic = codes "home/+/state"; access = access_read_write }

abbrev pub sensor : Input
sensor = record {
  name = codes "sensor-1";
  creation_timestamp = 20;
  username = codes "sensor";
  password = codes "secret";
  acls = acl ∷ [];
}

-- An older object with the same user name.
abbrev pub rival : Input
rival = record {
  name = codes "sensor-0";
  creation_timestamp = 10;
  username = codes "sensor";
  password = codes "other";
  acls = [];
}
