-- ===== src/Examples/Scrapes.antt =====
-- internal/exporter at concrete inputs.
use mosquitto_operator.Base.{◌≡◌, some, List, [], ◌∷◌, Bytes, codes, map}
use mosquitto_operator.Base.Dict.{lookup}
use mosquitto_operator.Exporter.Mapping.{Floats}
use mosquitto_operator.Exporter.Collect.{collect}
use mosquitto_operator.Exporter.Sessions.{
  Event, message, session, loss, after_events, last_value, in_session, collector_refines_log,
}
use mosquitto_operator.Exporter.Series.{series_of, IsDistinct, collect-IsDistinct}

-- Every text stands for itself.
abbrev texts : Floats
texts = record { Float = Bytes; zero = codes "0"; one = codes "1"; parse_float = λ s. some s }

-- A session, two values of one topic, a version, and a load average, the last one first.
abbrev published : List Event
published =
    message (codes "$SYS/broker/load/messages/received/1min") (codes "2.5")
    ∷ message (codes "$SYS/broker/uptime") (codes "61 seconds")
    ∷ message (codes "$SYS/broker/version") (codes "mosquitto version 2.1.2")
    ∷ message (codes "$SYS/broker/uptime") (codes "60 seconds")
    ∷ session
    ∷ loss
    ∷ message (codes "$SYS/broker/clients/total") (codes "4")
    ∷ []

collector_refines_log_example :
    ((k : Bytes) → lookup k (after_events texts published).samples ≡ last_value texts k published)
    × ((after_events texts published).connected ≡ in_session published)
collector_refines_log_example = collector_refines_log texts published

collect-IsDistinct_example :
    IsDistinct texts (map (series_of texts) (collect texts (after_events texts published)))
collect-IsDistinct_example = collect-IsDistinct texts published
