-- ===== src/Builder/Objects.antt =====
-- The Kubernetes objects that internal/builder fills: the fields that it sets.
use mosquitto_operator.Base.{ℕ, Bool, Option, List, Bytes}
use mosquitto_operator.Base.Dict.{Dict}
use mosquitto_operator.Api.{ResourceRequirements}

-- Both file modes are numbers; the two files of a Secret volume are its items.
pub data VolumeSource : Type 0 where
  config_map : Bytes → ℕ → VolumeSource
  secret : Bytes → List (Bytes × Bytes) → ℕ → VolumeSource
  empty_dir : VolumeSource

pub record Volume : Type 0 where
  pub name : Bytes
  pub source : VolumeSource

pub record VolumeMount : Type 0 where
  pub name : Bytes
  pub mount_path : Bytes
  pub read_only : Bool

pub record ContainerPort : Type 0 where
  pub name : Bytes
  pub container_port : ℕ
  pub protocol : Bytes

-- A probe by TCP.
pub record Probe : Type 0 where
  pub port : ℕ
  pub initial_delay_seconds : ℕ
  pub period_seconds : ℕ
  pub timeout_seconds : ℕ
  pub success_threshold : ℕ
  pub failure_threshold : ℕ

pub record SecurityContext : Type 0 where
  pub allow_privilege_escalation : Bool
  pub read_only_root_filesystem : Bool
  pub drop : List Bytes

pub record Container : Type 0 where
  pub name : Bytes
  pub image : Bytes
  pub command : List Bytes
  pub args : List Bytes
  pub ports : List ContainerPort
  pub volume_mounts : List VolumeMount
  pub readiness_probe : Option Probe
  pub liveness_probe : Option Probe
  pub resources : ResourceRequirements
  pub security_context : SecurityContext

pub record PodSecurityContext : Type 0 where
  pub run_as_non_root : Bool
  pub run_as_user : ℕ
  pub run_as_group : ℕ
  pub fs_group : ℕ
  pub seccomp_profile : Bytes

pub record PodAffinityTerm : Type 0 where
  pub match_labels : Dict Bytes
  pub topology_key : Bytes

pub record PodAntiAffinity : Type 0 where
  pub required : List PodAffinityTerm
  pub preferred : List (ℕ × PodAffinityTerm)

pub record PodSpec : Type 0 where
  pub automount_service_account_token : Bool
  pub security_context : PodSecurityContext
  pub share_process_namespace : Bool
  pub init_containers : List Container
  pub containers : List Container
  pub volumes : List Volume
  pub affinity : Option PodAntiAffinity

pub record PodTemplate : Type 0 where
  pub labels : Dict Bytes
  pub annotations : Dict Bytes
  pub spec : PodSpec

pub record PersistentVolumeClaim : Type 0 where
  pub name : Bytes
  pub labels : Dict Bytes
  pub access_modes : List Bytes
  pub storage_class_name : Option Bytes
  pub storage : Bytes

-- `replicas` is a pointer in Go.
pub record StatefulSet : Type 0 where
  pub name : Bytes
  pub namespace : Bytes
  pub labels : Dict Bytes
  pub annotations : Dict Bytes
  pub replicas : Option ℕ
  pub service_name : Bytes
  pub match_labels : Dict Bytes
  pub template : PodTemplate
  pub volume_claim_templates : List PersistentVolumeClaim

pub record ServicePort : Type 0 where
  pub name : Bytes
  pub port : ℕ
  pub target_port : Bytes
  pub protocol : Bytes

pub record Service : Type 0 where
  pub name : Bytes
  pub namespace : Bytes
  pub labels : Dict Bytes
  pub kind : Bytes
  pub cluster_ip : Bytes
  pub selector : Dict Bytes
  pub publish_not_ready_addresses : Bool
  pub ports : List ServicePort

pub record Secret : Type 0 where
  pub name : Bytes
  pub namespace : Bytes
  pub labels : Dict Bytes
  pub kind : Bytes
  pub files : Dict Bytes

pub record ConfigMap : Type 0 where
  pub name : Bytes
  pub namespace : Bytes
  pub labels : Dict Bytes
  pub texts : Dict Bytes
