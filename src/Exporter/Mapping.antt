-- ===== src/Exporter/Mapping.antt =====
-- internal/exporter/mapping.go: the $SYS topics of the broker, and the series they become.
use mosquitto_operator.Base.{
  ℕ, ◌+◌, not, ◌||◌, Option, none, some, List, [], ◌∷◌, ◌++◌, Bytes, codes, ◌=?◌, ◌==◌,
  if◌then◌else◌, take, drop,
}
use mosquitto_operator.Base.Dict.{Dict, lookup, member}
use mosquitto_operator.Base.Runes.{trim_space}
use mosquitto_operator.Base.Strings.{cut_prefix, trim_prefix, trim_suffix, last_index, replace_all}

-- `prometheus.ValueType`, of which the exporter uses two.
pub data ValueType : Type 0 where
  counter gauge : ValueType

-- What the exporter needs of `float64` and of `strconv.ParseFloat(s, 64)`.
pub record Floats : Type 1 where
  pub Float : Type 0
  pub zero : Float
  pub one : Float
  pub parse_float : Bytes → Option Float

pub record Metric : Type 0 where
  pub name : Bytes
  pub help : Bytes
  pub kind : ValueType

abbrev pub sys_prefix : Bytes
sys_prefix = codes "$SYS/broker/"

abbrev pub version_metric_name : Bytes
version_metric_name = codes "mosquitto_version_info"

abbrev pub load_metric_prefix : Bytes
load_metric_prefix = codes "mosquitto_load_"

abbrev metric : ValueType → Bytes → Bytes → Metric
metric kind name help = record { name = name; help = help; kind = kind }

unfoldable pub table : Dict Metric
table =
    (
      codes "bytes/received",
      metric counter (codes "mosquitto_bytes_received_total")
          (codes "Bytes received since the broker started."),
    )
    ∷ (
      codes "bytes/sent",
      metric counter (codes "mosquitto_bytes_sent_total")
          (codes "Bytes sent since the broker started."),
    )
    ∷ (
      codes "clients/active",
      metric gauge (codes "mosquitto_clients_active") (codes "Connected clients."),
    )
    ∷ (
      codes "clients/connected",
      metric gauge (codes "mosquitto_clients_connected") (codes "Connected clients."),
    )
    ∷ (
      codes "clients/disconnected",
      metric gauge (codes "mosquitto_clients_disconnected")
          (codes "Persistent clients that are disconnected."),
    )
    ∷ (
      codes "clients/expired",
      metric gauge (codes "mosquitto_clients_expired")
          (codes "Persistent clients expired and removed."),
    )
    ∷ (
      codes "clients/inactive",
      metric gauge (codes "mosquitto_clients_inactive")
          (codes "Persistent clients that are disconnected."),
    )
    ∷ (
      codes "clients/maximum",
      metric gauge (codes "mosquitto_clients_maximum")
          (codes "The most clients connected at once (Mosquitto 2.0)."),
    )
    ∷ (
      codes "clients/total",
      metric gauge (codes "mosquitto_clients_total")
          (codes "Connected and disconnected persistent clients."),
    )
    ∷ (
      codes "connections/socket/count",
      metric gauge (codes "mosquitto_connections_socket_count") (codes "Open sockets."),
    )
    ∷ (
      codes "heap/current",
      metric gauge (codes "mosquitto_heap_current_bytes") (codes "Heap memory in use."),
    )
    ∷ (
      codes "heap/maximum",
      metric gauge (codes "mosquitto_heap_maximum_bytes")
          (codes "The most heap memory in use since the broker started."),
    )
    ∷ (
      codes "messages/received",
      metric counter (codes "mosquitto_messages_received_total")
          (codes "MQTT packets of any type received since the broker started."),
    )
    ∷ (
      codes "messages/sent",
      metric counter (codes "mosquitto_messages_sent_total")
          (codes "MQTT packets of any type sent since the broker started."),
    )
    ∷ (
      codes "messages/stored",
      metric gauge (codes "mosquitto_messages_stored")
          (codes "Messages held in the message store."),
    )
    ∷ (
      codes "packet/out/bytes",
      metric gauge (codes "mosquitto_packet_out_bytes") (codes "Bytes of outgoing packets queued."),
    )
    ∷ (
      codes "packet/out/count",
      metric gauge (codes "mosquitto_packet_out_count") (codes "Outgoing packets queued."),
    )
    ∷ (
      codes "publish/bytes/received",
      metric counter (codes "mosquitto_publish_bytes_received_total")
          (codes "PUBLISH payload bytes received since the broker started."),
    )
    ∷ (
      codes "publish/bytes/sent",
      metric counter (codes "mosquitto_publish_bytes_sent_total")
          (codes "PUBLISH payload bytes sent since the broker started."),
    )
    ∷ (
      codes "publish/messages/dropped",
      metric counter (codes "mosquitto_publish_messages_dropped_total")
          (codes "PUBLISH messages dropped since the broker started."),
    )
    ∷ (
      codes "publish/messages/received",
      metric counter (codes "mosquitto_publish_messages_received_total")
          (codes "PUBLISH messages received since the broker started."),
    )
    ∷ (
      codes "publish/messages/sent",
      metric counter (codes "mosquitto_publish_messages_sent_total")
          (codes "PUBLISH messages sent since the broker started."),
    )
    ∷ (
      codes "retained messages/count",
      metric gauge (codes "mosquitto_retained_messages") (codes "Retained messages."),
    )
    ∷ (
      codes "shared_subscriptions/count",
      metric gauge (codes "mosquitto_shared_subscriptions") (codes "Shared subscriptions."),
    )
    ∷ (
      codes "store/messages/bytes",
      metric gauge (codes "mosquitto_store_messages_bytes")
          (codes "Payload bytes held in the message store."),
    )
    ∷ (
      codes "store/messages/count",
      metric gauge (codes "mosquitto_store_messages") (codes "Messages held in the message store."),
    )
    ∷ (
      codes "subscriptions/count",
      metric gauge (codes "mosquitto_subscriptions") (codes "Subscriptions."),
    )
    ∷ (
      codes "uptime",
      metric gauge (codes "mosquitto_uptime_seconds") (codes "Seconds since the broker started."),
    )
    ∷ []

abbrev pub load_windows : List Bytes
load_windows = codes "1min" ∷ codes "5min" ∷ codes "15min" ∷ []

abbrev pub version_metric : Metric
version_metric =
    metric gauge version_metric_name (codes "The broker version, as the label version.")

abbrev pub load_metric : Bytes → Metric
load_metric what =
    metric gauge (load_metric_prefix ++ replace_all what b'/' b'_')
      (codes "Moving average per minute over the window in the label window.")

module _ (f : Floats) where
  open f use {Float, one, parse_float}

  pub record Sample : Type 0 where
    pub metric : Metric
    pub label : Bytes
    pub value : Float

  -- A sample of the number in the text, if it is one.
  abbrev pub measured : Metric → Bytes → Option Float → Option Sample
  measured m label none = none
  measured m label (some x) = some (record { metric = m; label = label; value = x })

  unfoldable pub parse_version : Bytes → Option Sample
  parse_version text =
      let version = trim_prefix text (codes "mosquitto version ") in
      if version =? []
      then none
      else some (record { metric = version_metric; label = version; value = one })

  -- What stands before the last slash, and the window after it.
  unfoldable pub parse_load : Bytes → Bytes → Option ℕ → Option Sample
  parse_load text what none = none
  parse_load text what (some i) =
      let window = drop (i + 1) what in
      if i == 0 || not (member window load_windows)
      then none
      else measured (load_metric (take i what)) window (parse_float text)

  -- The reading of a plain topic.
  abbrev pub reading_of : Bytes → Bytes → Bytes
  reading_of path text =
      if path =? codes "uptime" then trim_suffix text (codes " seconds") else text

  unfoldable pub parse_plain : Bytes → Bytes → Option Metric → Option Sample
  parse_plain path text none = none
  parse_plain path text (some m) = measured m [] (parse_float (reading_of path text))

  unfoldable pub parse_other : Bytes → Bytes → Option Bytes → Option Sample
  parse_other path text none = parse_plain path text (lookup path table)
  parse_other path text (some what) = parse_load text what (last_index what b'/')

  unfoldable pub parse_path : Bytes → Option Bytes → Option Sample
  parse_path text none = none
  parse_path text (some path) =
      if path =? codes "version"
      then parse_version text
      else parse_other path text (cut_prefix path (codes "load/"))

  unfoldable pub parse : Bytes → Bytes → Option Sample
  parse topic payload = parse_path (trim_space payload) (cut_prefix topic sys_prefix)
