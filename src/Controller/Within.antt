-- ===== src/Controller/Within.antt =====
-- What a step of a pass does to the cluster, whether it succeeds or fails: rules for a relation
-- between the cluster before and after, one for each way to build a step.
use mosquitto_operator.Base.{
  ◌≡◌, refl, ◌⊎◌, inl, inr, Bool, true, false, List, [], ◌∷◌, if◌then◌else◌, Option-cases,
}
use mosquitto_operator.Base.Results.{Result, ok, err, Error, Message}
use mosquitto_operator.Controller.Cluster.{Cluster, Call}
use mosquitto_operator.Controller.Exec.{
  ⊤, Outside, Exec, pure, raise, lift, after, attempt, ◌>>=◌, for_each, State, ask, tell,
}
use mosquitto_operator.Controller.Users.{reading}

-- A relation that holds after no step, and after two steps if it holds after each.
pub record Change : Type 1 where
  pub rel : Cluster → Cluster → Type 0
  pub stay : (c : Cluster) → rel c c
  pub then_ : (a b c : Cluster) → rel a b → rel b c → rel a c

module _ {R : Type 0} (w : Change) where
  open w use {rel, stay, then_}

  pub record Within {A : Type 0} (m : Exec (State R) A) : Type 0 where
    pub at : (s : State R) → rel s.cluster (m s).1.cluster

  pub Within-pure : {A : Type 0} (a : A) → Within (pure a)
  Within-pure a = record { at = λ s. stay s.cluster }

  pub Within-raise : {A : Type 0} (e : Error) → Within {A = A} (raise e)
  Within-raise e = record { at = λ s. stay s.cluster }

  pub Within-lift : {A : Type 0} (r : Result A) → Within (lift r)
  Within-lift r = record { at = λ s. stay s.cluster }

  Within-after :
      {A B : Type 0} (c : Cluster) (r : Result A) (s : State R) (rest : A → Exec (State R) B)
      → rel c s.cluster
      → ((a : A) → Within (rest a))
      → rel c (after (r, s) rest).1.cluster
  Within-after c (ok a) s rest h k = then_ c s.cluster _ h ((k a).at s)
  Within-after c (err e) s rest h k = h

  pub Within-bind :
      {A B : Type 0} (m : Exec (State R) A) (rest : A → Exec (State R) B)
      → Within m
      → ((a : A) → Within (rest a))
      → Within (m >>= rest)
  Within-bind m rest h k = record {
    at = λ s. Within-after s.cluster (m s).0 (m s).1 rest (h.at s) k;
  }

  pub Within-attempt : {A : Type 0} (m : Exec (State R) A) → Within m → Within (attempt m)
  Within-attempt m h = record { at = λ s. h.at s }

  pub Within-reading :
      {A : Type 0} (text : Message) (m : Exec (State R) A) → Within m → Within (reading text m)
  Within-reading text m h = record { at = λ s. h.at s }

  pub Within-if :
      {A : Type 0} (b : Bool) (m n : Exec (State R) A)
      → Within m
      → Within n
      → Within (if b then m else n)
  Within-if true m n h k = h
  Within-if false m n h k = k

  pub Within-for_each :
      {A : Type 0} (body : A → Exec (State R) ⊤) (xs : List A)
      → ((a : A) → Within (body a))
      → Within (for_each body xs)
  unfolding for_each
  Within-for_each body [] k = Within-pure tt
  Within-for_each body (x ∷ xs) k =
      Within-bind (body x) (λ _. for_each body xs) (k x) (λ _. Within-for_each body xs k)

module _ (o : Outside) where
  open o use {fault, crypto}
  open crypto use {Reader}

  abbrev pub traced : Call → State Reader → State Reader
  traced call s = record s { trace = call ∷ s.trace }

  -- A call is answered from the cluster as it is, or fails.
  pub ask_cases :
      {A : Type 0} (call : Call) (answer : Cluster → A) (s : State Reader)
      → (ask o call answer s ≡ (ok (answer s.cluster), traced call s))
        ⊎ ((e : Error) × (ask o call answer s ≡ (err e, traced call s)))
  unfolding ask
  ask_cases call answer s = elim (Option-cases (fault s.trace call)) [
    | inl q ↦ inl (rw q refl)
    | inr (e, q) ↦ inr (e, rw q refl)
  ]

  pub tell_cases :
      (call : Call) (effect : Cluster → Cluster) (s : State Reader)
      → (tell o call effect s ≡ (ok tt, record (traced call s) { cluster = effect s.cluster }))
        ⊎ ((e : Error) × (tell o call effect s ≡ (err e, traced call s)))
  unfolding tell
  tell_cases call effect s = elim (Option-cases (fault s.trace call)) [
    | inl q ↦ inl (rw q refl)
    | inr (e, q) ↦ inr (e, rw q refl)
  ]

  module _ (w : Change) where
    open w use {rel, stay}

    pub Within-ask :
        {A : Type 0} (call : Call) (answer : Cluster → A) → Within w (ask o call answer)
    Within-ask call answer = record {
      at = λ s. elim (ask_cases call answer s) [
        | inl q ↦ rw q (stay s.cluster)
        | inr (e, q) ↦ rw q (stay s.cluster)
      ];
    }

    -- What follows on a call may use what the call gave, at the cluster that gave it.
    pub Within-ask-bind :
        {A B : Type 0} (call : Call) (answer : Cluster → A) (rest : A → Exec (State Reader) B)
        → ((s : State Reader) → rel s.cluster (rest (answer s.cluster) s).1.cluster)
        → Within w (ask o call answer >>= rest)
    Within-ask-bind call answer rest k = record {
      at = λ s. elim (ask_cases call answer s) [
        | inl q ↦ rw q (k (traced call s))
        | inr (e, q) ↦ rw q (stay s.cluster)
      ];
    }

    pub tell-rel :
        (call : Call) (effect : Cluster → Cluster) (s : State Reader)
        → rel s.cluster (effect s.cluster)
        → rel s.cluster (tell o call effect s).1.cluster
    tell-rel call effect s h = elim (tell_cases call effect s) [
      | inl q ↦ rw q h
      | inr (e, q) ↦ rw q (stay s.cluster)
    ]
