-- ===== src/Controller/Consented.antt =====
-- The Secrets that a pass reads when it gathers its users.
use mathlib.Core.List.{append_assoc}
use mosquitto_operator.Base.{
  ◌≡◌, refl, sym, ap, ◌∙◌, inl, inr, Bool, true, false, Option, none, some, List, [], ◌∷◌, ◌++◌,
  Bool-cases, All, All-append,
}
use mosquitto_operator.Base.Results.{Result, ok, err}
use mosquitto_operator.Api.{MosquittoUser}
use mosquitto_operator.Controller.Cluster.{
  config_map, service, stateful_set, secret, Stored, Cluster, Call, fetch, read, create, update,
  fetch_broker, update_broker, list_users, update_user,
}
use mosquitto_operator.Controller.Exec.{Outside, after, State}
use mosquitto_operator.Controller.Objects
use mosquitto_operator.Controller.Objects.{Reconciler}
use mosquitto_operator.Controller.Users.{
  consumable, read_credentials, with_metadata, key_of_credentials, gather, gathered, Gathered,
  Credentials,
}
use mosquitto_operator.Controller.Within.{ask_cases, traced}

-- The Secret consents.
abbrev pub consents : Option (Stored secret) → Bool
consents none = false
consents (some x) = consumable x.content.labels

-- A call that gathering may make: it asks the cache, or reads a Secret that consents.
abbrev pub IsConsented : Cluster → Call → Type 0
IsConsented c (fetch k key) = Unit
IsConsented c (read secret key) = consents (c.objects secret key) ≡ true
IsConsented c (read config_map key) = ⊥
IsConsented c (read service key) = ⊥
IsConsented c (read stateful_set key) = ⊥
IsConsented c (create k key) = ⊥
IsConsented c (update k key) = ⊥
IsConsented c (fetch_broker key) = ⊥
IsConsented c (update_broker key) = ⊥
IsConsented c (list_users namespace broker) = ⊥
IsConsented c (update_user key) = ⊥

-- From one state to another with calls of this sort only, and no change of the cluster.
pub record OnlyConsented {R : Type 0} (s t : State R) : Type 0 where
  pub unchanged : t.cluster ≡ s.cluster
  pub calls : List Call
  pub made : t.trace ≡ calls ++ s.trace
  pub consented : All (IsConsented s.cluster) calls

module _ {R : Type 0} where
  OnlyConsented-refl : (s : State R) → OnlyConsented s s
  OnlyConsented-refl s = record { unchanged = refl; calls = []; made = refl; consented = tt }

  OnlyConsented-trans :
      (s t u : State R) → OnlyConsented s t → OnlyConsented t u → OnlyConsented s u
  OnlyConsented-trans s t u h g = record {
    unchanged = g.unchanged ∙ h.unchanged;
    calls = g.calls ++ h.calls;
    made =
        g.made
        ∙ (ap (λ (cs : List Call). g.calls ++ cs) h.made
            ∙ sym (append_assoc g.calls h.calls s.trace));
    consented =
        All-append (IsConsented s.cluster) g.calls h.calls (rw (← h.unchanged) g.consented)
          h.consented;
  }

module _ (o : Outside) where
  open o use {crypto}
  open crypto use {Reader}

  traced-OnlyConsented :
      (call : Call) (s : State Reader)
      → IsConsented s.cluster call
      → OnlyConsented s (traced o call s)
  traced-OnlyConsented call s h = record {
    unchanged = refl;
    calls = call ∷ [];
    made = refl;
    consented = (h, tt);
  }

  module _ (r : Reconciler) (required : r.secret_security ≡ true) where
    with_metadata-OnlyConsented :
        (u : MosquittoUser) (x : Option (Stored secret)) (s : State Reader)
        → s.cluster.objects secret (key_of_credentials u) ≡ x
        → OnlyConsented s (with_metadata o r u x s).1
    unfolding with_metadata Objects.read
    with_metadata-OnlyConsented u none s e = OnlyConsented-refl s
    with_metadata-OnlyConsented u (some x) s e = elim (Bool-cases (consumable x.content.labels)) [
      | inr q ↦ rw (required, q) (OnlyConsented-refl s)
      | inl q ↦
          rw (required, q)
            (elim (ask_cases o (Call.read secret (key_of_credentials u))
              (λ c. c.objects secret (key_of_credentials u)) s) [
                | inl t ↦
                    rw t (traced-OnlyConsented (Call.read secret (key_of_credentials u)) s (rw e q))
                | inr (y, t) ↦
                    rw t (traced-OnlyConsented (Call.read secret (key_of_credentials u)) s (rw e q))
              ])
    ]

    read_credentials-OnlyConsented :
        (u : MosquittoUser) (s : State Reader) → OnlyConsented s (read_credentials o r u s).1
    unfolding read_credentials Objects.fetch
    read_credentials-OnlyConsented u s =
        let call = Call.fetch secret (key_of_credentials u) in
        let fetched = traced-OnlyConsented call s tt in
        elim (ask_cases o call (λ c. c.objects secret (key_of_credentials u)) s) [
          | inr (e, q) ↦ rw q fetched
          | inl q ↦ rw q (
              OnlyConsented-trans s (traced o call s) _ fetched (
                with_metadata-OnlyConsented u (s.cluster.objects secret (key_of_credentials u))
                  (traced o call s) refl))
        ]

    rest-OnlyConsented :
        (u : MosquittoUser) (us : List MosquittoUser) (g : Gathered) (x : Result Credentials)
        (s t : State Reader)
        → ((g : Gathered) → OnlyConsented t (gather o r us g t).1)
        → OnlyConsented s t
        → OnlyConsented s (after (x, t) (λ c. gather o r us (gathered u c g))).1
    rest-OnlyConsented u us g (err e) s t k h = h
    rest-OnlyConsented u us g (ok c) s t k h = OnlyConsented-trans s t _ h (k (gathered u c g))

    -- With consent required, gathering the users of a broker asks the cache and reads Secrets that consent, makes no
    -- other call and changes nothing, whatever calls fail.
    pub gather-OnlyConsented :
        (us : List MosquittoUser) (g : Gathered) (s : State Reader)
        → OnlyConsented s (gather o r us g s).1
    unfolding gather
    gather-OnlyConsented [] g s = OnlyConsented-refl s
    gather-OnlyConsented (u ∷ us) g s =
        rest-OnlyConsented u us g (read_credentials o r u s).0 s (read_credentials o r u s).1
          (λ g'. gather-OnlyConsented us g' (read_credentials o r u s).1)
          (read_credentials-OnlyConsented u s)
