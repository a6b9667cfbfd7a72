-- ===== src/Controller/Conditions.antt =====
-- The conditions of a status. `meta.SetStatusCondition` of apimachinery is a parameter, with what
-- its documentation says of it; a transition time is not part of a condition here.
use mosquitto_operator.Base.{
  ◌≡◌, ◌≢◌, Bool, true, false, Option, none, some, List, [], ◌∷◌, Bytes, codes, ◌=?◌, ◌==◌, ◌&&◌,
  if◌then◌else◌, bytes_discrete,
}
use native.Mathlib.Decide.{ℕ_discrete}
use mathlib.Core.Logic.{ite}
use mosquitto_operator.Api.{MosquittoStatus, Condition, MosquittoUserStatus}

abbrev pub condition_ready : Bytes
condition_ready = codes "Ready"

abbrev pub condition_users : Bytes
condition_users = codes "Users"

-- The condition of a kind.
unfoldable pub find : Bytes → List Condition → Option Condition
find kind [] = none
find kind (c ∷ cs) = if c.kind =? kind then some c else find kind cs

-- The condition of the new one's kind is replaced, or the new one is added; one that is there as
-- it is to be stays, and so do the others.
pub record Conditions : Type 0 where
  pub set : List Condition → Condition → List Condition
  pub find-set : (cs : List Condition) (c : Condition) → find c.kind (set cs c) ≡ some c
  pub find-set_ne :
      (kind : Bytes) (cs : List Condition) (c : Condition)
      → kind ≢ c.kind
      → find kind (set cs c) ≡ find kind cs
  pub set_settled : (cs : List Condition) (c : Condition) → find c.kind cs ≡ some c → set cs c ≡ cs

unfoldable pub condition_discrete : Discrete Condition
condition_discrete = hlevel (bytes_discrete, ℕ_discrete)

unfoldable pub conditions_discrete : Discrete (List Condition)
unfolding condition_discrete
conditions_discrete = hlevel (condition_discrete)

-- `statusUnchanged`
unfoldable pub status_unchanged : MosquittoStatus → MosquittoStatus → Bool
status_unchanged prev curr =
    prev.phase =? curr.phase
    && (prev.ready_replicas == curr.ready_replicas
        && (prev.observed_generation == curr.observed_generation
            && (prev.users == curr.users
                && ite (conditions_discrete prev.conditions curr.conditions) true false)))

-- `reflect.DeepEqual` of two statuses of a user.
unfoldable pub user_status_unchanged : MosquittoUserStatus → MosquittoUserStatus → Bool
user_status_unchanged prev curr =
    prev.observed_generation == curr.observed_generation
    && (prev.username =? curr.username
        && ite (conditions_discrete prev.conditions curr.conditions) true false)
