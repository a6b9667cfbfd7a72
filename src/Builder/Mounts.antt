-- ===== src/Builder/Mounts.antt =====
-- The volumes that the containers of a broker pod mount.
use mosquitto_operator.Base.{Bool, true, List, [], ◌∷◌, ◌++◌, Bytes, In, All, if◌then◌else◌, ◌&&◌}
use mosquitto_operator.Base.Dict.{member}
use mosquitto_operator.Api.{Mosquitto, is_storage_enabled}
use mosquitto_operator.Builder.Objects.{Container, VolumeMount, Volume}
use mosquitto_operator.Builder.Pods.{PodOptions, build_pod_spec, data_volume_name}

abbrev volume_names : List Volume → List Bytes
volume_names [] = []
volume_names (v ∷ vs) = v.name ∷ volume_names vs

-- The names that a mount of the pod can refer to: its volumes, and the claim of its own storage.
unfoldable pub mountable : Mosquitto → PodOptions → List Bytes
mountable m opts =
    volume_names (build_pod_spec m opts).volumes
    ++ (if is_storage_enabled m then data_volume_name ∷ [] else [])

abbrev pub MountsAre : List Bytes → Container → Type 0
MountsAre names c = All (λ v. In v.name names) c.volume_mounts

mounts_are : List Bytes → List VolumeMount → Bool
mounts_are names [] = true
mounts_are names (v ∷ vs) = member v.name names && mounts_are names vs

all_mounts_are : List Bytes → List Container → Bool
all_mounts_are names [] = true
all_mounts_are names (c ∷ cs) = mounts_are names c.volume_mounts && all_mounts_are names cs
