-- ===== src/Controller/Exec.antt =====
-- Steps of a pass: they change the cluster, and may fail. What was written before a failure stays
-- written. `fault` decides for every call, after the calls made so far, whether it fails.
use mosquitto_operator.Base.{Option, none, some, List, [], ◌∷◌, Bytes}
use mosquitto_operator.Base.Results.{Result, ok, err, Error, Message}
use mosquitto_operator.Auth.Hash.{Crypto}
use mosquitto_operator.Builder.StatefulSets.{Encodings}
use mosquitto_operator.Controller.Conditions.{Conditions}
use mosquitto_operator.Controller.Cluster.{Cluster, Call, Kind, Key}

abbrev pub ⊤ : Type 0
⊤ = Unit {0}

-- The code that a pass calls and that is not the operator's: the API server and the owner
-- references of controller-runtime by their failures, `fmt`, the encodings and the cryptography.
pub record Outside : Type 1 where
  pub fault : List Call → Call → Option Error
  pub owner_fault : Kind → Key → Option Error
  pub sprintf : Message → Bytes
  pub error_text : Error → Bytes
  pub conditions : Conditions
  pub encodings : Encodings
  pub crypto : Crypto

abbrev pub Exec : Type 0 → Type 0 → Type 0
Exec S A = S → Result A × S

abbrev pub pure : {S A : Type 0} → A → Exec S A
pure a s = (ok a, s)

abbrev pub raise : {S A : Type 0} → Error → Exec S A
raise e s = (err e, s)

abbrev pub lift : {S A : Type 0} → Result A → Exec S A
lift r s = (r, s)

abbrev pub after : {S A B : Type 0} → Result A × S → (A → Exec S B) → Result B × S
after (ok a, s) rest = rest a s
after (err e, s) rest = (err e, s)

infixl 5 ◌>>=◌ ◌>>◌
abbrev pub ◌>>=◌ : {S A B : Type 0} → Exec S A → (A → Exec S B) → Exec S B
◌>>=◌ m rest s = after (m s) rest

abbrev pub ◌>>◌ : {S B : Type 0} → Exec S ⊤ → Exec S B → Exec S B
m >> rest = m >>= λ _. rest

-- The error as a value, for code that handles it.
abbrev pub attempt : {S A : Type 0} → Exec S A → Exec S (Result A)
attempt m s = let (r, s') = m s in (ok r, s')

-- `for _, x := range xs { if err := body(x); err != nil { return err } }`
unfoldable pub for_each : {S A : Type 0} → (A → Exec S ⊤) → List A → Exec S ⊤
for_each body [] = pure tt
for_each body (x ∷ xs) = body x >> for_each body xs

-- The cluster, the calls made so far, the last one first, and the source of salts.
pub record State (R : Type 0) : Type 0 where
  pub cluster : Cluster
  pub trace : List Call
  pub random : R

answered : {R A : Type 0} → State R → A → Option Error → Result A × State R
answered s a none = (ok a, s)
answered s a (some e) = (err e, s)

-- One call of the API server: it is recorded, and answered from the cluster unless it fails. A
-- call that fails changes nothing.
module _ (o : Outside) where
  open o use {fault, crypto}
  open crypto use {Reader}

  abbrev pub Pass : Type 0 → Type 0
  Pass A = Exec (State Reader) A

  unfoldable pub ask : {A : Type 0} → Call → (Cluster → A) → Pass A
  unfolding answered
  ask call answer s =
      answered (record s { trace = call ∷ s.trace }) (answer s.cluster) (fault s.trace call)

  change : Cluster → State Reader → Option Error → Result ⊤ × State Reader
  change c s none = (ok tt, record s { cluster = c })
  change c s (some e) = (err e, s)

  unfoldable pub tell : Call → (Cluster → Cluster) → Pass ⊤
  unfolding change
  tell call effect s =
      change (effect s.cluster) (record s { trace = call ∷ s.trace }) (fault s.trace call)
