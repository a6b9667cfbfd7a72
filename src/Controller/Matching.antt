-- ===== src/Controller/Matching.antt =====
-- What the tests before an update compare (internal/controller/mosquitto_controller.go), as equations
-- between the live object and the desired one.
use mosquitto_operator.Base.{ℕ, ◌≡◌, true, false, Option, none, some, Bytes, arith}
use mosquitto_operator.Base.Dict.{Dict, lookup}
use mosquitto_operator.Api.{Mosquitto}
use mosquitto_operator.Builder.StatefulSets.{replicas_differ, stateful_set_has_changed}
use mosquitto_operator.Controller.Cluster.{
  Kind, config_map, service, stateful_set, secret, Content, Stored, Cluster,
}
use mosquitto_operator.Controller.Held.{deep_equal-lookup}
use mosquitto_operator.Controller.Objects.{agrees, ports_discrete, is_controlled_by, key_of}
use mosquitto_operator.Controller.Recorded.{ite_sound}
use mosquitto_operator.Controller.Settled.{HasMaps, IsSettled}
use mosquitto_operator.Labels.Merge.{Carries, map_entries_missing_iff}

-- The same entries.
abbrev pub SameEntries : Dict Bytes → Dict Bytes → Type 0
SameEntries a b = (k : Bytes) → lookup k a ≡ lookup k b

-- The same number of replicas, where the live object names one.
abbrev pub SameReplicas : Option ℕ → Option ℕ → Type 0
SameReplicas (some a) (some b) = ◌≡◌ {A = ℕ} a b
SameReplicas (some a) none = Unit
SameReplicas none _ = Unit

-- The live object has the desired data, and every desired label among its own. Of a StatefulSet the
-- pod template is known by its labels and annotations, which carry the hashes of the desired pod
-- spec and configuration.
abbrev pub Matches : (k : Kind) → Content k → Content k → Type 0
Matches config_map c d = SameEntries c.texts d.texts × Carries c.labels d.labels
Matches service c d =
    (c.ports ≡ d.ports) × SameEntries c.selector d.selector × Carries c.labels d.labels
Matches stateful_set c d =
    SameReplicas c.replicas d.replicas
    × Carries c.labels d.labels
    × Carries c.annotations d.annotations
    × Carries c.template.labels d.template.labels
    × Carries c.template.annotations d.template.annotations
Matches secret c d = SameEntries c.files d.files × Carries c.labels d.labels

replicas_same : (a b : Option ℕ) → replicas_differ a b ≡ false → SameReplicas b a
unfolding replicas_differ
replicas_same (some a) (some b) h = ground arith
replicas_same (some a) none h = tt
replicas_same none (some b) h = tt
replicas_same none none h = tt

agrees-Matches : (k : Kind) (c d : Content k) → HasMaps k d → agrees k c d ≡ true → Matches k c d
unfolding agrees stateful_set_has_changed
agrees-Matches config_map c d n h = (
  λ k. deep_equal-lookup c.texts d.texts k (ground arith),
  (map_entries_missing_iff d.labels c.labels n.1).0 (ground arith),
)
agrees-Matches service c d n h = (
  ite_sound (ports_discrete c.ports d.ports) (ground arith),
  λ k. deep_equal-lookup c.selector d.selector k (ground arith),
  (map_entries_missing_iff d.labels c.labels n.1).0 (ground arith),
)
agrees-Matches secret c d n h = (
  λ k. deep_equal-lookup c.files d.files k (ground arith),
  (map_entries_missing_iff d.labels c.labels n.1).0 (ground arith),
)
agrees-Matches stateful_set c d n h = (
  replicas_same d.replicas c.replicas (ground arith),
  (map_entries_missing_iff d.labels c.labels n.of_labels).0 (ground arith),
  (map_entries_missing_iff d.annotations c.annotations n.of_annotations).0 (ground arith),
  (map_entries_missing_iff d.template.labels c.template.labels n.of_template_labels).0
      (ground arith),
  (map_entries_missing_iff d.template.annotations c.template.annotations
        n.of_template_annotations).0
      (ground arith),
)

-- The object is there, belongs to the owner, and has what is desired.
pub record IsLive (k : Kind) (m : Mosquitto) (desired : Content k) (c : Cluster) : Type 0 where
  pub current : Stored k
  pub is_stored : c.objects k (key_of k desired) ≡ some current
  pub is_owned : is_controlled_by current m ≡ true
  pub matches : Matches k current.content desired

pub IsSettled-IsLive :
    (k : Kind) (m : Mosquitto) (desired : Content k) (c : Cluster)
    → HasMaps k desired
    → IsSettled k m desired c
    → IsLive k m desired c
IsSettled-IsLive k m desired c n h = record {
  current = h.current;
  is_stored = h.is_stored;
  is_owned = h.is_owned;
  matches = agrees-Matches k h.current.content desired n h.is_agreed;
}
