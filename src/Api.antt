-- ===== src/Api.antt =====
-- api/v1/mosquitto_types.go and api/v1/mosquittouser_types.go: the custom resources, their
-- constants and their methods. Of the metadata that every Kubernetes object carries, `ObjectMeta`
-- keeps what the operator reads or writes. An `int32` that the CRD bounds from below by 1, or
-- that counts, is a natural number.
use mosquitto_operator.Base.{
  ℕ, Bool, false, Option, none, some, List, [], Bytes, codes, ◌=?◌, not, bytes_discrete,
  if◌then◌else◌,
}
use mosquitto_operator.Base.Dict.{Dict}

-- The owner reference that `IsControlledBy` looks for: the uid of the controlling owner.
pub record ObjectMeta : Type 0 where
  pub name : Bytes
  pub namespace : Bytes
  pub uid : Bytes
  pub generation : ℕ
  pub creation_timestamp : ℕ
  pub deletion_timestamp : Option ℕ
  pub labels : Dict Bytes
  pub annotations : Dict Bytes
  pub controller : Option Bytes

abbrev pub anti_affinity_mode_off : Bytes
anti_affinity_mode_off = codes "off"

abbrev pub anti_affinity_mode_soft : Bytes
anti_affinity_mode_soft = codes "soft"

abbrev pub anti_affinity_mode_hard : Bytes
anti_affinity_mode_hard = codes "hard"

abbrev pub anti_affinity_weight : ℕ
anti_affinity_weight = 100

abbrev pub anti_affinity_topology_key : Bytes
anti_affinity_topology_key = codes "kubernetes.io/hostname"

-- A quantity is the text that it is written as.
pub record ResourceRequirements : Type 0 where
  pub requests : Dict Bytes
  pub limits : Dict Bytes

pub record MosquittoTls : Type 0 where
  pub secret_name : Bytes

pub record MosquittoStorage : Type 0 where
  pub size : Bytes
  pub storage_class_name : Option Bytes

pub record MosquittoMetrics : Type 0 where
  pub enabled : Bool

pub record MosquittoSpec : Type 0 where
  pub replicas : ℕ
  pub image : Bytes
  pub config : Bytes
  pub anti_affinity : Bytes
  pub tls : Option MosquittoTls
  pub resources : ResourceRequirements
  pub storage : Option MosquittoStorage
  pub pod_labels : Dict Bytes
  pub pod_annotations : Dict Bytes
  pub metrics : Option MosquittoMetrics

-- `metav1.Condition` without its transition time, which `SetStatusCondition` keeps.
pub record Condition : Type 0 where
  pub kind : Bytes
  pub status : Bool
  pub observed_generation : ℕ
  pub reason : Bytes
  pub message : Bytes

pub record MosquittoStatus : Type 0 where
  pub phase : Bytes
  pub ready_replicas : ℕ
  pub observed_generation : ℕ
  pub users : ℕ
  pub conditions : List Condition

pub record Mosquitto : Type 0 where
  pub meta : ObjectMeta
  pub spec : MosquittoSpec
  pub status : MosquittoStatus

unfoldable pub anti_affinity_mode : Mosquitto → Bytes
anti_affinity_mode m =
    if m.spec.anti_affinity =? anti_affinity_mode_soft
    then anti_affinity_mode_soft
    else if m.spec.anti_affinity =? anti_affinity_mode_hard
    then anti_affinity_mode_hard
    else anti_affinity_mode_off

unfoldable pub is_tls_enabled : Mosquitto → Bool
is_tls_enabled m = elim m.spec.tls [ none ↦ false | some t ↦ not (t.secret_name =? []) ]

unfoldable pub is_metrics_enabled : Mosquitto → Bool
is_metrics_enabled m = elim m.spec.metrics [ none ↦ false | some t ↦ t.enabled ]

unfoldable pub is_storage_enabled : Mosquitto → Bool
is_storage_enabled m = elim m.spec.storage [ none ↦ false | some t ↦ not (t.size =? []) ]

abbrev pub access_read : Bytes
access_read = codes "read"

abbrev pub access_write : Bytes
access_write = codes "write"

abbrev pub access_read_write : Bytes
access_read_write = codes "readwrite"

pub record MosquittoAcl : Type 0 where
  pub topic : Bytes
  pub access : Bytes

pub record CredentialsSecret : Type 0 where
  pub name : Bytes
  pub username_key : Bytes
  pub password_key : Bytes

pub record MosquittoUserSpec : Type 0 where
  pub broker_ref : Bytes
  pub credentials_secret : CredentialsSecret
  pub acls : List MosquittoAcl

pub record MosquittoUserStatus : Type 0 where
  pub observed_generation : ℕ
  pub username : Bytes
  pub conditions : List Condition

pub record MosquittoUser : Type 0 where
  pub meta : ObjectMeta
  pub spec : MosquittoUserSpec
  pub status : MosquittoUserStatus

abbrev pub default_username_key : Bytes
default_username_key = codes "username"

abbrev pub default_password_key : Bytes
default_password_key = codes "password"

unfoldable pub username_key : MosquittoUser → Bytes
username_key u =
    let key = u.spec.credentials_secret.username_key in
    if key =? [] then default_username_key else key

unfoldable pub password_key : MosquittoUser → Bytes
password_key u =
    let key = u.spec.credentials_secret.password_key in
    if key =? [] then default_password_key else key

unfoldable pub acl_discrete : Discrete MosquittoAcl
unfolding bytes_discrete
acl_discrete = hlevel bytes_discrete
