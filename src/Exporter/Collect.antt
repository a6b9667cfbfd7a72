-- ===== src/Exporter/Collect.antt =====
-- internal/exporter/collector.go: the values that a scrape is served.
use mosquitto_operator.Base.{
  Bool, true, false, not, Option, none, some, List, [], ◌∷◌, ◌++◌, Bytes, codes, ◌=?◌,
  if◌then◌else◌,
}
use mosquitto_operator.Base.Dict.{Dict, insert}
use mosquitto_operator.Exporter.Mapping.{Floats, Metric, gauge, Sample, version_metric_name, parse}

abbrev pub connected_metric : Metric
connected_metric = record {
  name = codes "mosquitto_exporter_connected";
  help =
      codes
        "Whether the exporter holds an MQTT session with its broker (1) or not (0). Without one, no broker series is served.";
  kind = gauge;
}

module _ (f : Floats) where
  open f use {Float, zero, one}

  -- The lock is held for the whole of every operation, so the operations follow one another.
  pub record Collector : Type 0 where
    pub samples : Dict (Sample f)
    pub connected : Bool

  unfoldable pub new_collector : Collector
  new_collector = record { samples = []; connected = false }

  unfoldable pub key_of_sample : Sample f → Bytes
  key_of_sample s =
      if s.metric.name =? version_metric_name
      then s.metric.name
      else s.metric.name ++ (codes "/" ++ s.label)

  abbrev pub held_with : Collector → Option (Sample f) → Collector × Bool
  held_with c none = (c, false)
  held_with c (some s) = (record c { samples = insert (key_of_sample s) s c.samples }, true)

  -- Whether the topic was mapped, beside the new state.
  unfoldable pub observe : Bytes → Bytes → Collector → Collector × Bool
  observe topic payload c = held_with c (parse f topic payload)

  unfoldable pub connect : Collector → Collector
  connect c = record c { connected = true }

  unfoldable pub lost : Collector → Collector
  lost c = record { samples = []; connected = false }

  -- A series with its labels, as `prometheus.MustNewConstMetric` takes it.
  pub record ConstMetric : Type 0 where
    pub metric : Metric
    pub labels : Dict Bytes
    pub value : Float

  unfoldable pub const_metric : Sample f → ConstMetric
  const_metric s =
      if s.metric.name =? version_metric_name
      then record { metric = s.metric; labels = (codes "version", s.label) ∷ []; value = s.value }
      else if not (s.label =? [])
      then record { metric = s.metric; labels = (codes "window", s.label) ∷ []; value = s.value }
      else record { metric = s.metric; labels = []; value = s.value }

  abbrev pub samples_of : Dict (Sample f) → List ConstMetric
  samples_of [] = []
  samples_of ((k, s) ∷ d) = const_metric s ∷ samples_of d

  -- What a scrape is sent. Go leaves the order of the series open.
  unfoldable pub collect : Collector → List ConstMetric
  collect c =
      record { metric = connected_metric; labels = []; value = if c.connected then one else zero }
      ∷ samples_of c.samples
