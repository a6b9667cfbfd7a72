-- ===== src/Examples/Secrets.antt =====
-- internal/controller at concrete inputs: the Secrets of users, and the events that they cause.
use mosquitto_operator.Base.{refl, none, List, [], ◌∷◌, codes}
use mosquitto_operator.Controller.Cluster.{Key}
use mosquitto_operator.Controller.Watches.Wakes.{woken}
use mosquitto_operator.Controller.Consented.{OnlyConsented, gather-OnlyConsented}
use mosquitto_operator.Controller.Users.{Gathered, gather}
use mosquitto_operator.Examples.Clusters.{quiet_outside, operator_of, sample_user, start}
use mosquitto_operator.Examples.Samples.{sample_broker}

abbrev woken_by_secret : List Key
woken_by_secret =
    woken (codes "home") (codes "sensor-secret") none (sample_user ∷ sample_user ∷ []) none
      (sample_broker ∷ [])

abbrev none_gathered : Gathered
none_gathered = record { inputs = []; usernames = []; verdicts = [] }

gather-OnlyConsented_example :
    OnlyConsented start
      (gather quiet_outside (operator_of (codes "home")) (sample_user ∷ []) none_gathered start).1
gather-OnlyConsented_example =
    gather-OnlyConsented quiet_outside (operator_of (codes "home")) refl (sample_user ∷ [])
      none_gathered start
