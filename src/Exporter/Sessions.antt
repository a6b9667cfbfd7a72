-- ===== src/Exporter/Sessions.antt =====
-- The collector over a list of events, and a log of the events that it stands for.
use mosquitto_operator.Base.{
  ◌≡◌, refl, ap, ◌∙◌, Bool, true, false, Option, none, some, List, [], ◌∷◌, Bytes, ◌=?◌,
  if◌then◌else◌,
}
use mosquitto_operator.Base.Dict.{lookup, lookup-insert}
use mosquitto_operator.Exporter.Mapping.{Floats, Sample, parse}
use mosquitto_operator.Exporter.Collect.{
  Collector, new_collector, key_of_sample, held_with, observe, connect, lost,
}

-- What happens to a collector: a message of the broker, a session, and its loss.
pub data Event : Type 0 where
  message : Bytes → Bytes → Event
  session : Event
  loss : Event

-- The session is up if the last change of it was its start.
unfoldable pub in_session : List Event → Bool
in_session [] = false
in_session (message _ _ ∷ es) = in_session es
in_session (session ∷ es) = true
in_session (loss ∷ es) = false

module _ (f : Floats) where
  abbrev pub handle : Event → Collector f → Collector f
  handle (message topic payload) c = (observe f topic payload c).0
  handle session c = connect f c
  handle loss c = lost f c

  -- The collector after some events, the last one first.
  unfoldable pub after_events : List Event → Collector f
  after_events [] = new_collector f
  after_events (e ∷ es) = handle e (after_events es)

  abbrev newer : Bytes → Option (Sample f) → Option (Sample f) → Option (Sample f)
  newer k none old = old
  newer k (some s) old = if key_of_sample f s =? k then some s else old

  -- The last value of a series since the last loss of the session.
  unfoldable pub last_value : Bytes → List Event → Option (Sample f)
  last_value k [] = none
  last_value k (message topic payload ∷ es) = newer k (parse f topic payload) (last_value k es)
  last_value k (session ∷ es) = last_value k es
  last_value k (loss ∷ es) = none

  held-newer :
      (k : Bytes) (x : Option (Sample f)) (c : Collector f)
      → lookup k (held_with f c x).0.samples ≡ newer k x (lookup k c.samples)
  held-newer k none c = refl
  held-newer k (some s) c = lookup-insert k (key_of_sample f s) s c.samples

  held-connected :
      (x : Option (Sample f)) (c : Collector f) → (held_with f c x).0.connected ≡ c.connected
  held-connected none c = refl
  held-connected (some s) c = refl

  -- The collector holds, for each series, the last value that the broker published since the session was last
  -- lost, and nothing where there is none; and it reports a session exactly while one is up.
  pub collector_refines_log :
      (es : List Event)
      → ((k : Bytes) → lookup k (after_events es).samples ≡ last_value k es)
        × ((after_events es).connected ≡ in_session es)
  unfolding after_events last_value in_session new_collector observe connect lost lookup
  collector_refines_log [] = (λ k. refl, refl)
  collector_refines_log (message topic payload ∷ es) =
      let old = collector_refines_log es in
      (
        λ k.
            held-newer k (parse f topic payload) (after_events es)
            ∙ ap (newer k (parse f topic payload)) (old.0 k),
        held-connected (parse f topic payload) (after_events es) ∙ old.1,
      )
  collector_refines_log (session ∷ es) = ((collector_refines_log es).0, refl)
  collector_refines_log (loss ∷ es) = (λ k. refl, refl)
