-- ===== src/Controller/Cluster.antt =====
-- What a pass of the reconciler reads and writes: the objects of the API server, by kind,
-- namespace and name. An object is stored with the uid of its controlling owner.
use mosquitto_operator.Base.{
  ℕ, ◌≡◌, Bool, true, ◌&&◌, Option, some, List, Bytes, ◌=?◌, if◌then◌else◌, arith, =?_refl,
}
use mosquitto_operator.Api.{Mosquitto, MosquittoUser}
use mosquitto_operator.Builder.Objects.{ConfigMap, Service, StatefulSet, Secret}

-- `types.NamespacedName`
pub record Key : Type 0 where
  pub namespace : Bytes
  pub name : Bytes

infix 50 ◌=key◌
abbrev pub ◌=key◌ : Key → Key → Bool
j =key k = j.namespace =? k.namespace && j.name =? k.name

pub data Kind : Type 0 where
  config_map service stateful_set secret : Kind

abbrev pub Content : Kind → Type 0
Content config_map = ConfigMap
Content service = Service
Content stateful_set = StatefulSet
Content secret = Secret

pub record Stored (k : Kind) : Type 0 where
  pub controller : Option Bytes
  pub content : Content k

abbrev pub Objects : Type 0
Objects = (k : Kind) → Key → Option (Stored k)

-- One object written, every other as it was.
abbrev pub write {ℓ} : {A : Type ℓ} → Key → A → (Key → Option A) → Key → Option A
write key a f j = if key =key j then some a else f j

unfoldable pub put : (k : Kind) → Key → Stored k → Objects → Objects
put config_map key o f config_map = write key o (f config_map)
put service key o f service = write key o (f service)
put stateful_set key o f stateful_set = write key o (f stateful_set)
put secret key o f secret = write key o (f secret)
put config_map key o f service = f service
put config_map key o f stateful_set = f stateful_set
put config_map key o f secret = f secret
put service key o f config_map = f config_map
put service key o f stateful_set = f stateful_set
put service key o f secret = f secret
put stateful_set key o f config_map = f config_map
put stateful_set key o f service = f service
put stateful_set key o f secret = f secret
put secret key o f config_map = f config_map
put secret key o f service = f service
put secret key o f stateful_set = f stateful_set

-- The users are listed in the order of the server; the number of ready pods of a StatefulSet is
-- written by its own controller.
pub record Cluster : Type 0 where
  pub objects : Objects
  pub brokers : Key → Option Mosquitto
  pub users : List MosquittoUser
  pub ready_replicas : Key → ℕ

-- The calls of the API. A `fetch` is served from the cache, a `read` is not.
pub data Call : Type 0 where
  fetch read create update : Kind → Key → Call
  fetch_broker update_broker : Key → Call
  list_users : Bytes → Bytes → Call
  update_user : Key → Call

pub put_self : (k : Kind) (key : Key) (o : Stored k) (f : Objects) → put k key o f k key ≡ some o
unfolding put
put_self config_map key o f = ground (arith, =?_refl key.namespace, =?_refl key.name)
put_self service key o f = ground (arith, =?_refl key.namespace, =?_refl key.name)
put_self stateful_set key o f = ground (arith, =?_refl key.namespace, =?_refl key.name)
put_self secret key o f = ground (arith, =?_refl key.namespace, =?_refl key.name)

pub key_of_test : (j k : Key) → (j =key k) ≡ true → j ≡ k
key_of_test j k h = ground arith
