-- ===== src/Controller/Readiness.antt =====
-- What the status that updateStatus records says of the pods
-- (internal/controller/mosquitto_controller.go).
use mathlib.Core.Bool.{false≢true}
use mosquitto_operator.Base.{
  ℕ, ◌≡◌, refl, sym, ◌∙◌, inl, inr, ◌↔◌, true, false, ◌&&◌, Option, none, some, Bytes, ◌=?◌, ◌≤◌,
  ◌<◌, =?_refl, ltb, leb, Bool-cases, Option-cases, arith, bytes_discrete,
}
use mosquitto_operator.Api.{Mosquitto, Condition}
use mosquitto_operator.Labels.{stateful_set_name}
use mosquitto_operator.Controller.Cluster.{Key, stateful_set, Stored, Cluster}
use mosquitto_operator.Controller.Conditions.{condition_ready, find}
use mosquitto_operator.Controller.Exec.{Outside, State}
use mosquitto_operator.Controller.Recorded.{NoFaults, ready_in, update_status_records}
use mosquitto_operator.Controller.Statuses.{
  phase_ready, key_of_broker, set_phase, phase_of, status_of, ready_of, update_status,
}

-- The key of the StatefulSet of the Mosquitto.
abbrev pub pods_key : Mosquitto → Key
pods_key m = record { namespace = m.meta.namespace; name = stateful_set_name m }

-- The StatefulSet is in the cluster, pods are asked for, and as many are ready.
abbrev pub AreAllReady : Mosquitto → Cluster → Type 0
AreAllReady m c =
    (set : Stored stateful_set) × (c.objects stateful_set (pods_key m) ≡ some set)
    × (0 < m.spec.replicas)
    × (m.spec.replicas ≤ c.ready_replicas (pods_key m))

-- The pods that are ready: none without a StatefulSet.
abbrev pub ready_pods : Mosquitto → Cluster → ℕ
ready_pods m c = elim (c.objects stateful_set (pods_key m)) [
  | none ↦ 0
  | some set ↦ c.ready_replicas (pods_key m)
]

from_test : (a b : Bytes) → (a =? b) ≡ true → a ≡ b
from_test a b h = ground (arith, h)

none_not_set : {A : Type 0} {a : A} → ◌≡◌ {A = Option A} none (some a) → ⊥
none_not_set e = cc

counted :
    {A : Type 0} (n : ℕ) (x : Option A)
    → ◌≡◌ {A = ℕ}
        (elim (ready_of n x) [ none ↦ 0 | some ready ↦ ready ])
        (elim x [ none ↦ 0 | some _ ↦ n ])
unfolding ready_of
counted n none = refl
counted n (some a) = refl

module _ (o : Outside) where
  open o use {conditions, crypto}
  open crypto use {Reader}

  phase_without_set : (m : Mosquitto) → ((status_of o m none).status.phase =? phase_ready) ≡ false
  unfolding status_of set_phase bytes_discrete
  phase_without_set m = refl

  phase_with_set :
      (m : Mosquitto) (ready : ℕ)
      → ((status_of o m (some ready)).status.phase =? phase_ready)
        ≡ (ltb 0 m.spec.replicas && leb m.spec.replicas ready)
  unfolding status_of phase_of set_phase bytes_discrete
  phase_with_set m ready = elim (Bool-cases (ltb 0 m.spec.replicas && leb m.spec.replicas ready)) [
    | inl q ↦ rw q refl
    | inr q ↦ elim (Bool-cases (ltb 0 ready)) [ inl t ↦ rw (q, t) refl | inr t ↦ rw (q, t) refl ]
  ]

  reported_ready :
      (m : Mosquitto) (x : Option ℕ)
      → ((status_of o m x).status.ready_replicas ≡ elim x [ none ↦ 0 | some ready ↦ ready ])
        × ((c : Condition) × (find condition_ready (status_of o m x).status.conditions ≡ some c)
            × (c.status ≡ ((status_of o m x).status.phase =? phase_ready))
            × (c.observed_generation ≡ m.meta.generation))
  unfolding status_of phase_of set_phase bytes_discrete
  reported_ready m none = (refl, (_, conditions.find-set _ _, refl, refl))
  reported_ready m (some ready) =
      elim (Bool-cases (ltb 0 m.spec.replicas && leb m.spec.replicas ready)) [
        | inl q ↦ rw q (refl, (_, conditions.find-set _ _, refl, refl))
        | inr q ↦ elim (Bool-cases (ltb 0 ready)) [
          | inl t ↦ rw (q, t) (refl, (_, conditions.find-set _ _, refl, refl))
          | inr t ↦ rw (q, t) (refl, (_, conditions.find-set _ _, refl, refl))
        ]
      ]

  phase_without_pods :
      (m : Mosquitto) (c : Cluster)
      → c.objects stateful_set (pods_key m) ≡ none
      → ((status_of o m (ready_in m c)).status.phase ≡ phase_ready) ↔ AreAllReady m c
  unfolding ready_of
  phase_without_pods m c h = (
    λ e. absurd (false≢true (sym (phase_without_set m) ∙ rw (← e, h) (=?_refl _))),
    λ all. absurd (none_not_set (sym h ∙ all.1)),
  )

  ready_test :
      (m : Mosquitto) (c : Cluster) (set : Stored stateful_set)
      → c.objects stateful_set (pods_key m) ≡ some set
      → (status_of o m (ready_in m c)).status.phase ≡ phase_ready
      → ((status_of o m (some (c.ready_replicas (pods_key m)))).status.phase =? phase_ready) ≡ true
  unfolding ready_of
  ready_test m c set h e =
      let same : (status_of o m (some (c.ready_replicas (pods_key m)))).status.phase ≡ phase_ready =
        rw (← e, h) refl in
      rw same (=?_refl phase_ready)

  phase_with_pods :
      (m : Mosquitto) (c : Cluster) (set : Stored stateful_set)
      → c.objects stateful_set (pods_key m) ≡ some set
      → ((status_of o m (ready_in m c)).status.phase ≡ phase_ready) ↔ AreAllReady m c
  unfolding ready_of
  phase_with_pods m c set h =
      let test = phase_with_set m (c.ready_replicas (pods_key m)) in
      (
        λ e.
            let yes : (ltb 0 m.spec.replicas && leb m.spec.replicas (c.ready_replicas (pods_key m)))
                ≡ true =
              sym test ∙ ready_test m c set h e in
            (set, h, ground (arith, yes), ground (arith, yes)),
        λ all. rw h (from_test _ _ (test ∙ ground (arith, all.2, all.3))),
      )

  -- Where no call fails, updateStatus leaves the stored Mosquitto in the phase Ready exactly when its
  -- StatefulSet is in the cluster, asks for pods, and has at least as many ready pods; the Ready condition is
  -- true in that phase and in no other, and observes the generation; the ready pods are counted, none without a
  -- StatefulSet.
  pub phase_is_ready_iff :
      (m stored : Mosquitto) (s : State Reader)
      → NoFaults o
      → s.cluster.brokers (key_of_broker m) ≡ some stored
      → key_of_broker stored ≡ key_of_broker m
      → (new : Mosquitto) × ((update_status o m s).1.cluster.brokers (key_of_broker m) ≡ some new)
        × ((new.status.phase ≡ phase_ready) ↔ AreAllReady m s.cluster)
        × (new.status.ready_replicas ≡ ready_pods m s.cluster)
        × ((c : Condition) × (find condition_ready new.status.conditions ≡ some c)
            × (c.status ≡ (new.status.phase =? phase_ready))
            × (c.observed_generation ≡ m.meta.generation))
  unfolding ready_of
  phase_is_ready_iff m stored s quiet found named =
      let recorded = update_status_records o m stored s quiet found named in
      let new : Mosquitto = record stored {
        status = (status_of o m (ready_in m s.cluster)).status;
      } in
      let said = reported_ready m (ready_in m s.cluster) in
      elim (Option-cases (s.cluster.objects stateful_set (pods_key m))) [
        | inl h ↦ (
          new,
          recorded.1,
          phase_without_pods m s.cluster h,
          said.0
              ∙ counted (s.cluster.ready_replicas (pods_key m))
                  (s.cluster.objects stateful_set (pods_key m)),
          said.1,
        )
        | inr (set, h) ↦ (
          new,
          recorded.1,
          phase_with_pods m s.cluster set h,
          said.0
              ∙ counted (s.cluster.ready_replicas (pods_key m))
                  (s.cluster.objects stateful_set (pods_key m)),
          said.1,
        )
      ]
