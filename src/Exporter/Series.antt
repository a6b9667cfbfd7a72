-- ===== src/Exporter/Series.antt =====
-- What tells the series of a scrape apart, for a registry (internal/exporter/collector.go).
use mosquitto_operator.Base.{
  ℕ, ◌≡◌, ◌≢◌, refl, sym, ap, ◌∙◌, Bool, true, false, not, inl, inr, Option, none, some, List, [],
  ◌∷◌, map, Bytes, codes, ◌=?◌, if◌then◌else◌, arith, In, Bool-cases, bytes_discrete, ◌==◌, ◌||◌,
  ◌+◌, drop,
}
use mosquitto_operator.Base.Dict.{Dict, lookup, In-keys-insert, insert, keys, member}
use mosquitto_operator.Base.Runes.{trim_space}
use mosquitto_operator.Base.Strings.{cut_prefix, trim_prefix, last_index}
use mosquitto_operator.Exporter.Mapping.{
  Floats, Metric, Sample, sys_prefix, load_windows, reading_of, table, measured, parse_version,
  parse_load, parse_plain, parse_other, parse_path, parse,
}
use mosquitto_operator.Exporter.Collect.{
  Collector, new_collector, key_of_sample, held_with, observe, connect, lost, const_metric,
  ConstMetric, collect, connected_metric, samples_of,
}
use mosquitto_operator.Exporter.Sessions.{Event, message, session, loss, after_events}

module _ (f : Floats) where
  open f use {Float}

  -- What tells two series of a scrape apart.
  abbrev pub series_of : ConstMetric f → Bytes × Dict Bytes
  series_of c = (c.metric.name, c.labels)

  abbrev pub IsDistinct : List (Bytes × Dict Bytes) → Type 0
  IsDistinct [] = Unit
  IsDistinct (x ∷ xs) = ¬ In x xs × IsDistinct xs

  -- The series of a sample has its name, and says its key.
  series-key :
      (s t : Sample f)
      → series_of (const_metric f s) ≡ series_of (const_metric f t)
      → key_of_sample f s ≡ key_of_sample f t
  unfolding const_metric key_of_sample
  series-key s t e = ground arith

  -- Every value is held under its own key, once, and none is the exporter's own series.
  abbrev WellHeld : Dict (Sample f) → Type 0
  WellHeld [] = Unit
  WellHeld ((k, s) ∷ d) =
      (key_of_sample f s ≡ k)
      × (s.metric.name ≢ connected_metric.name)
      × ¬ In k (keys d)
      × WellHeld d

  insert-WellHeld :
      (s : Sample f) (d : Dict (Sample f))
      → s.metric.name ≢ connected_metric.name
      → WellHeld d
      → WellHeld (insert (key_of_sample f s) s d)
  unfolding insert keys
  insert-WellHeld s [] n h = (refl, n, (λ x. x), tt)
  insert-WellHeld s ((k, t) ∷ d) n (e, m, fresh, h) = elim (Bool-cases (k =? key_of_sample f s)) [
    | inl q ↦ rw q (refl, n, ground arith, h)
    | inr q ↦ rw q (
      e,
      m,
      (λ i. ground (arith, In-keys-insert k (key_of_sample f s) s d i)),
      insert-WellHeld s d n h,
    )
  ]

  const_metric-name : (s : Sample f) → (const_metric f s).metric.name ≡ s.metric.name
  unfolding const_metric
  const_metric-name s = ground arith

  In-series :
      (s : Sample f) (d : Dict (Sample f))
      → WellHeld d
      → In (series_of (const_metric f s)) (map series_of (samples_of f d))
      → In (key_of_sample f s) (keys d)
  unfolding keys
  In-series s [] h i = i
  In-series s ((k, t) ∷ d) h (inl i) = inl (series-key s t i ∙ h.0)
  In-series s ((k, t) ∷ d) h (inr i) = inr (In-series s d h.3 i)

  own_series_fresh :
      (d : Dict (Sample f))
      → WellHeld d
      → ¬ In (connected_metric.name, []) (map series_of (samples_of f d))
  own_series_fresh [] h i = i
  own_series_fresh ((k, s) ∷ d) h (inl i) = h.1 (sym (ap (λ x. x.0) i ∙ const_metric-name s))
  own_series_fresh ((k, s) ∷ d) h (inr i) = own_series_fresh d h.3 i

  samples-IsDistinct :
      (d : Dict (Sample f)) → WellHeld d → IsDistinct (map series_of (samples_of f d))
  samples-IsDistinct [] h = tt
  samples-IsDistinct ((k, s) ∷ d) h =
      ((λ i. h.2 (rw (← h.0) (In-series s d h.3 i))), samples-IsDistinct d h.3)

  -- Whether the name is that of a broker series.
  names_lack : Bytes → Dict Metric → Bool
  names_lack name [] = true
  names_lack name ((k, m) ∷ d) = if m.name =? name then false else names_lack name d

  lookup-names_lack :
      (name path : Bytes) (d : Dict Metric) (m : Metric)
      → names_lack name d ≡ true
      → lookup path d ≡ some m
      → m.name ≢ name
  unfolding names_lack lookup
  lookup-names_lack name path [] m h e = ground arith
  lookup-names_lack name path ((k, x) ∷ d) m h e = ground (arith, lookup-names_lack name path d m)

  table-names_lack : names_lack connected_metric.name table ≡ true
  unfolding names_lack table bytes_discrete
  table-names_lack = refl

  -- No topic gives the exporter's own series.
  IsForeign : Option (Sample f) → Type 0
  IsForeign none = Unit
  IsForeign (some s) = s.metric.name ≢ connected_metric.name

  measured-IsForeign :
      (m : Metric) (label : Bytes) (x : Option Float)
      → m.name ≢ connected_metric.name
      → IsForeign (measured f m label x)
  unfolding IsForeign
  measured-IsForeign m label none h = tt
  measured-IsForeign m label (some x) h = h

  parse_version-IsForeign : (text : Bytes) → IsForeign (parse_version f text)
  unfolding parse_version IsForeign
  parse_version-IsForeign text =
      elim (Bool-cases (trim_prefix text (codes "mosquitto version ") =? [])) [
        | inl q ↦ rw q tt
        | inr q ↦ rw q (λ e. ground arith)
      ]

  parse_load-IsForeign : (text what : Bytes) (i : Option ℕ) → IsForeign (parse_load f text what i)
  unfolding parse_load IsForeign
  parse_load-IsForeign text what none = tt
  parse_load-IsForeign text what (some i) =
      elim (Bool-cases (i == 0 || not (member (drop (i + 1) what) load_windows))) [
        | inl q ↦ rw q tt
        | inr q ↦ rw q (measured-IsForeign _ _ (f.parse_float text) (λ e. ground arith))
      ]

  parse_plain-IsForeign :
      (path text : Bytes) (m : Option Metric)
      → lookup path table ≡ m
      → IsForeign (parse_plain f path text m)
  unfolding parse_plain IsForeign
  parse_plain-IsForeign path text none e = tt
  parse_plain-IsForeign path text (some m) e =
      measured-IsForeign m [] (f.parse_float (reading_of f path text))
        (lookup-names_lack connected_metric.name path table m table-names_lack e)

  parse_other-IsForeign :
      (path text : Bytes) (x : Option Bytes) → IsForeign (parse_other f path text x)
  unfolding parse_other
  parse_other-IsForeign path text none = parse_plain-IsForeign path text (lookup path table) refl
  parse_other-IsForeign path text (some what) =
      parse_load-IsForeign text what (last_index what b'/')

  parse_path-IsForeign : (text : Bytes) (path : Option Bytes) → IsForeign (parse_path f text path)
  unfolding parse_path IsForeign
  parse_path-IsForeign text none = tt
  parse_path-IsForeign text (some path) = elim (Bool-cases (path =? codes "version")) [
    | inl q ↦ rw q (parse_version-IsForeign text)
    | inr q ↦ rw q (parse_other-IsForeign path text (cut_prefix path (codes "load/")))
  ]

  parse-IsForeign : (topic payload : Bytes) → IsForeign (parse f topic payload)
  unfolding parse
  parse-IsForeign topic payload =
      parse_path-IsForeign (trim_space payload) (cut_prefix topic sys_prefix)

  held-WellHeld :
      (x : Option (Sample f)) (c : Collector f)
      → IsForeign x
      → WellHeld c.samples
      → WellHeld (held_with f c x).0.samples
  unfolding IsForeign
  held-WellHeld none c n h = h
  held-WellHeld (some s) c n h = insert-WellHeld s c.samples n h

  after_events-WellHeld : (es : List Event) → WellHeld (after_events f es).samples
  unfolding after_events new_collector observe connect lost
  after_events-WellHeld [] = tt
  after_events-WellHeld (message topic payload ∷ es) =
      held-WellHeld (parse f topic payload) (after_events f es) (parse-IsForeign topic payload)
        (after_events-WellHeld es)
  after_events-WellHeld (session ∷ es) = after_events-WellHeld es
  after_events-WellHeld (loss ∷ es) = tt

  -- Whatever the broker publishes and however often the session is lost, no two series of a scrape have the same
  -- name and the same labels, the exporter's own series included.
  pub collect-IsDistinct :
      (es : List Event) → IsDistinct (map series_of (collect f (after_events f es)))
  unfolding collect
  collect-IsDistinct es = (
    own_series_fresh (after_events f es).samples (after_events-WellHeld es),
    samples-IsDistinct (after_events f es).samples (after_events-WellHeld es),
  )
