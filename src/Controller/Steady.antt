-- ===== src/Controller/Steady.antt =====
-- The status that a pass computes again over what the pass before stored.
use mosquitto_operator.Base.{
  ℕ, ◌≡◌, ◌≢◌, refl, sym, ap, ◌∙◌, inl, inr, Bool, true, false, ◌&&◌, Option, none, some, List,
  Bytes, =?_refl, ltb, leb, Bool-cases, arith,
}
use mosquitto_operator.Api.{Mosquitto, MosquittoStatus, Condition}
use mosquitto_operator.Controller.Conditions.{
  condition_ready, condition_users, conditions_discrete, status_unchanged,
}
use mosquitto_operator.Controller.Exec.{Outside}
use mosquitto_operator.Controller.Settled.{ite_yes}
use mosquitto_operator.Controller.Statuses.{
  set_phase, set_users_condition, users_condition, phase_of, with_ready, status_of,
}

status_unchanged_refl : (a : MosquittoStatus) → status_unchanged a a ≡ true
unfolding status_unchanged
status_unchanged_refl a =
    rw (=?_refl a.phase, ite_yes (conditions_discrete a.conditions a.conditions) refl)
      (ground arith)

users_not_ready : condition_users ≢ condition_ready
users_not_ready e = ground arith

users_condition-kind :
    (generation accepted : ℕ) → (users_condition generation accepted).kind ≡ condition_users
unfolding users_condition
users_condition-kind generation accepted = ground arith

module _ (o : Outside) where
  open o use {conditions}

  -- Setting two conditions of different kinds a second time changes nothing.
  conditions_settle :
      (cs : List Condition) (u r : Condition)
      → u.kind ≢ r.kind
      → conditions.set (conditions.set (conditions.set (conditions.set cs u) r) u) r
        ≡ conditions.set (conditions.set cs u) r
  conditions_settle cs u r n =
      let once = conditions.set (conditions.set cs u) r in
      let kept =
        conditions.set_settled once u
          (conditions.find-set_ne u.kind (conditions.set cs u) r n ∙ conditions.find-set cs u) in
      rw kept (conditions.set_settled once r (conditions.find-set (conditions.set cs u) r))

  -- The Mosquitto with the status at the end of a pass that accepted so many users.
  abbrev pub finished : Mosquitto → ℕ → Option ℕ → Mosquitto
  finished m accepted ready = status_of o (set_users_condition o m accepted) ready

  users_apart :
      (m : Mosquitto) (accepted : ℕ) (c : Condition)
      → c.kind ≡ condition_ready
      → (users_condition m.meta.generation accepted).kind ≢ c.kind
  users_apart m accepted c e h =
      users_not_ready (sym (users_condition-kind m.meta.generation accepted) ∙ h ∙ e)

  phase-settles :
      (m : Mosquitto) (accepted ready : ℕ) (phase reason text : Bytes) (is_ready : Bool)
      → let once =
          set_phase o
            (with_ready o (set_users_condition o m accepted) ready)
            phase
            is_ready
            reason
            text in
        (set_phase o
          (with_ready o (set_users_condition o once accepted) ready)
          phase
          is_ready
          reason
          text).status
        ≡ once.status
  unfolding set_phase set_users_condition
  phase-settles m accepted ready phase reason text is_ready =
      let c : Condition = record {
        kind = condition_ready;
        status = is_ready;
        observed_generation = m.meta.generation;
        reason = reason;
        message = text;
      } in
      ap
        (λ (cs : List Condition). record {
          phase = phase;
          ready_replicas = ready;
          observed_generation = m.meta.generation;
          users = accepted;
          conditions = cs;
        })
        (conditions_settle m.status.conditions (users_condition m.meta.generation accepted) c
          (users_apart m accepted c refl))

  status-settles :
      (m : Mosquitto) (accepted : ℕ) (ready : Option ℕ)
      → (finished (finished m accepted ready) accepted ready).status
        ≡ (finished m accepted ready).status
  unfolding status_of phase_of set_phase set_users_condition
  status-settles m accepted none = phase-settles m accepted 0 _ _ _ false
  status-settles m accepted (some ready) =
      elim (Bool-cases (ltb 0 m.spec.replicas && leb m.spec.replicas ready)) [
        | inl q ↦ rw (q, q) (phase-settles m accepted ready _ _ _ true)
        | inr q ↦ elim (Bool-cases (ltb 0 ready)) [
          | inl t ↦ rw (q, t, q) (phase-settles m accepted ready _ _ _ false)
          | inr t ↦ rw (q, t, q) (phase-settles m accepted ready _ _ _ false)
        ]
      ]

  -- A pass over the Mosquitto with the status of the pass before, with as many users accepted and as many pods
  -- ready, computes that status again, so nothing is written.
  pub finished_status_is_unchanged :
      (m : Mosquitto) (accepted : ℕ) (ready : Option ℕ)
      → status_unchanged
          (finished m accepted ready).status
          (finished (finished m accepted ready) accepted ready).status
        ≡ true
  finished_status_is_unchanged m accepted ready =
      rw (status-settles m accepted ready)
        (status_unchanged_refl (finished m accepted ready).status)
