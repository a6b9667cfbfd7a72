-- ===== src/Controller/Watches/Wakes.antt =====
-- The brokers that a change of a Secret wakes.
use mosquitto_operator.Base.{
  ◌≡◌, Bool, true, false, ◌&&◌, ◌||◌, Option, none, some, List, [], ◌∷◌, Bytes, ◌=?◌,
}
use mosquitto_operator.Base.Results.{Result, ok, err, Error}
use mosquitto_operator.Api.{Mosquitto, MosquittoUser, is_tls_enabled}
use mosquitto_operator.Controller.Cluster.{Key}
use mosquitto_operator.Controller.Passes.{tls_secret_of}
use mosquitto_operator.Controller.Watches.{seen, users_naming, brokers_naming, brokers_for_secret}

-- No request twice.
abbrev pub IsOnce : List Key → Type 0
IsOnce [] = Unit
IsOnce (k ∷ ks) = (seen k ks ≡ false) × IsOnce ks

-- The answer of a list call that may fail, and whether it succeeds.
abbrev pub listed : {A : Type 0} → Option Error → List A → Result (List A)
listed none xs = ok xs
listed (some e) xs = err e

abbrev pub succeeds : Option Error → Bool
succeeds none = true
succeeds (some e) = false

-- What the two lists answer for a Secret of this namespace and name, each with its fault.
abbrev pub woken :
    Bytes → Bytes → Option Error → List MosquittoUser → Option Error → List Mosquitto → List Key
woken namespace name fault users tls_fault brokers =
    brokers_for_secret namespace (listed fault (users_naming namespace name users))
      (listed tls_fault (brokers_naming namespace name brokers))

-- A user of the namespace names the Secret, and this broker.
abbrev pub names_by_user : Bytes → Bytes → Bytes → List MosquittoUser → Bool
names_by_user namespace name broker [] = false
names_by_user namespace name broker (u ∷ us) =
    u.meta.namespace =? namespace
      && (u.spec.credentials_secret.name =? name && u.spec.broker_ref =? broker)
    || names_by_user namespace name broker us

-- The broker serves TLS with the Secret of the namespace.
abbrev pub names_by_tls : Bytes → Bytes → Bytes → List Mosquitto → Bool
names_by_tls namespace name broker [] = false
names_by_tls namespace name broker (m ∷ ms) =
    m.meta.namespace =? namespace
      && (is_tls_enabled m && (tls_secret_of m.spec.tls =? name && m.meta.name =? broker))
    || names_by_tls namespace name broker ms
