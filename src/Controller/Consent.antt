-- ===== src/Controller/Consent.antt =====
-- The Secrets of users: what the cache holds of one, and the read of its data.
use mosquitto_operator.Base.{◌≡◌, refl, true, false, Option, none, some, inl, inr}
use mosquitto_operator.Api.{MosquittoUser}
use mosquitto_operator.Controller.Cluster.{secret, Stored, Call}
use mosquitto_operator.Controller.Exec.{Outside, State}
use mosquitto_operator.Controller.Objects.{Reconciler, fetch}
use mosquitto_operator.Controller.Users.{
  consumable, read_credentials, with_metadata, key_of_credentials,
}
use mosquitto_operator.Controller.Watches.{strip_secret}
use mosquitto_operator.Controller.Within.{ask_cases, traced}

abbrev stripped : Option (Stored secret) → Option (Stored secret)
stripped none = none
stripped (some s) = some (strip_secret s)

-- The metadata that the cache keeps of a Secret decides as the whole Secret would.
stripped_metadata_decides :
    (o : Outside) (r : Reconciler) (u : MosquittoUser) (x : Option (Stored secret))
    → with_metadata o r u (stripped x) ≡ with_metadata o r u x
unfolding with_metadata strip_secret
stripped_metadata_decides o r u none = refl
stripped_metadata_decides o r u (some s) = refl

unread :
    (o : Outside) (r : Reconciler) (u : MosquittoUser) (x : Option (Stored secret))
    (s : State o.crypto.Reader)
    → r.secret_security ≡ true
    → elim x [ none ↦ false | some x ↦ consumable x.content.labels ] ≡ false
    → (with_metadata o r u x s).1 ≡ s
unfolding with_metadata
unread o r u none s required lacking = refl
unread o r u (some x) s required lacking = rw (required, lacking) refl

-- With consent required, the data of a user's Secret is read only if the labels of the Secret consent: otherwise
-- the pass asks the cache for its metadata and makes no other call, and whatever it finds or fails with, it
-- changes nothing.
secret_not_read_without_consent :
    (o : Outside) (r : Reconciler) (u : MosquittoUser) (s : State o.crypto.Reader)
    → r.secret_security ≡ true
    → elim (s.cluster.objects secret (key_of_credentials u)) [
      | none ↦ false
      | some x ↦ consumable x.content.labels
    ]
      ≡ false
    → (read_credentials o r u s).1 ≡ traced o (Call.fetch secret (key_of_credentials u)) s
unfolding read_credentials with_metadata fetch
secret_not_read_without_consent o r u s required lacking =
    elim (ask_cases o (Call.fetch secret (key_of_credentials u))
      (λ c. c.objects secret (key_of_credentials u)) s) [
        | inr (e, q) ↦ rw q refl
        | inl q ↦ rw q (
            unread o r u (s.cluster.objects secret (key_of_credentials u))
              (traced o (Call.fetch secret (key_of_credentials u)) s) required lacking)
      ]
