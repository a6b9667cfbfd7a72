-- ===== src/Controller/Watches.antt =====
-- internal/controller/watches.go: which brokers an event wakes, and what of a Secret is cached.
pub mod Wakes
pub mod Setup
use mosquitto_operator.Base.{
  ℕ, ◌≡◌, Bool, true, false, not, ◌&&◌, Option, none, some, List, [], ◌∷◌, ◌++◌, map, Bytes, ◌=?◌,
  if◌then◌else◌,
}
use mosquitto_operator.Base.Dict.{member}
use mosquitto_operator.Base.Results.{Result, ok, err}
use mosquitto_operator.Api.{Mosquitto, MosquittoUser, is_tls_enabled}
use mosquitto_operator.Builder.Objects.{Secret}
use mosquitto_operator.Controller.Cluster.{Key, ◌=key◌, secret, Stored}
use mosquitto_operator.Controller.Passes.{tls_secret_of}

abbrev pub index_user_broker : MosquittoUser → List Bytes
index_user_broker u = u.spec.broker_ref ∷ []

abbrev pub index_user_secret : MosquittoUser → List Bytes
index_user_secret u = u.spec.credentials_secret.name ∷ []

unfoldable pub index_tls_secret : Mosquitto → List Bytes
index_tls_secret m = if not (is_tls_enabled m) then [] else tls_secret_of m.spec.tls ∷ []

-- `client.Object`, as far as a watch of users tells objects apart.
pub data WatchedObject : Type 0 where
  user : MosquittoUser → WatchedObject
  other : WatchedObject

pub data WatchEvent : Type 0 where
  created deleted generic : WatchedObject → WatchEvent
  updated : WatchedObject → WatchedObject → WatchEvent

unfoldable pub enqueue : WatchedObject → List Key
enqueue (user u) = record { namespace = u.meta.namespace; name = u.spec.broker_ref } ∷ []
enqueue other = []

-- The requests that an event adds to the queue, in their order.
unfoldable pub user_brokers : WatchEvent → List Key
user_brokers (created x) = enqueue x
user_brokers (updated old new) = enqueue old ++ enqueue new
user_brokers (deleted x) = enqueue x
user_brokers (generic x) = enqueue x

abbrev pub seen : Key → List Key → Bool
seen key [] = false
seen key (k ∷ ks) = if k =key key then true else seen key ks

-- The closure `add`: a request is added if there is none for the key yet. The first one added is the last of
-- the list here.
unfoldable pub add : Bytes → Bytes → List Key → List Key
add namespace name requests =
    let key : Key = record { namespace = namespace; name = name } in
    if not (seen key requests) then key ∷ requests else requests

unfoldable pub add_all : Bytes → List Bytes → List Key → List Key
add_all namespace [] requests = requests
add_all namespace (name ∷ names) requests = add_all namespace names (add namespace name requests)

-- `List` in a namespace with `MatchingFields` of one index.
abbrev pub matching :
    {A : Type 0} → (A → Bytes) → (A → List Bytes) → Bytes → Bytes → List A → List A
matching namespace_of index namespace value [] = []
matching namespace_of index namespace value (a ∷ rest) =
    if namespace_of a =? namespace && member value (index a)
    then a ∷ matching namespace_of index namespace value rest
    else matching namespace_of index namespace value rest

abbrev pub names_in : {A : Type 0} → (A → Bytes) → Result (List A) → List Bytes
names_in name_of (ok xs) = map name_of xs
names_in name_of (err e) = []

abbrev pub users_naming : Bytes → Bytes → List MosquittoUser → List MosquittoUser
users_naming namespace name = matching (λ u. u.meta.namespace) index_user_secret namespace name

abbrev pub brokers_naming : Bytes → Bytes → List Mosquitto → List Mosquitto
brokers_naming namespace name = matching (λ m. m.meta.namespace) index_tls_secret namespace name

-- From the answers of the two lists; a list that fails is passed over.
unfoldable pub brokers_for_secret :
    Bytes → Result (List MosquittoUser) → Result (List Mosquitto) → List Key
brokers_for_secret namespace users brokers =
    add_all namespace (names_in (λ m. m.meta.name) brokers)
      (add_all namespace (names_in (λ u. u.spec.broker_ref) users) [])

-- What the cache keeps of a Secret; annotations and managed fields are not part of one here.
unfoldable pub strip_secret : Stored secret → Stored secret
strip_secret s = record s { content = record s.content { files = [] } }
