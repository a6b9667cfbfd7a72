-- ===== src/Controller/Held.antt =====
-- The Secret of a broker after reconcileAuthSecret (internal/controller/users.go).
use mosquitto_operator.Base.{
  ◌≡◌, refl, sym, ◌∙◌, inl, inr, true, Option, none, some, [], ◌∷◌, Bytes, =?_refl, Bool-cases,
  Option-cases, arith,
}
use mosquitto_operator.Base.Dict.{Dict, lookup}
use mosquitto_operator.Base.Results.{ok}
use mosquitto_operator.Api.{Mosquitto}
use mosquitto_operator.Builder.Services.{build_auth_secret}
use mosquitto_operator.Controller.Cluster.{Key, secret, Stored, Cluster, Call, put, put_self}
use mosquitto_operator.Controller.Exec.{Outside, State, tell}
use mosquitto_operator.Controller.Objects.{
  entries_in, deep_equal, agrees, updated, is_controlled_by, ensure_owned, owned, set_controller,
  create, update, renew, write_over, ensure, key_of, read, reconcile_auth_secret,
}
use mosquitto_operator.Controller.Settled.{err_not_ok}
use mosquitto_operator.Controller.Within.{ask_cases, tell_cases, traced}

-- The live Secret of the broker has these files and no others.
pub record HoldsFiles (m : Mosquitto) (files : Dict Bytes) (c : Cluster) : Type 0 where
  pub live : Stored secret
  pub is_stored : c.objects secret (key_of secret (build_auth_secret m files)) ≡ some live
  pub is_owned : is_controlled_by live m ≡ true
  pub has_files : (k : Bytes) → lookup k live.content.files ≡ lookup k files

entries_in_sound :
    (a b : Dict Bytes) (k v : Bytes)
    → entries_in a b ≡ true
    → lookup k a ≡ some v
    → lookup k b ≡ some v
unfolding entries_in lookup
entries_in_sound [] b k v h e = ground arith
entries_in_sound ((j, w) ∷ a) b k v h e = ground (arith, entries_in_sound a b k v)

pub deep_equal-lookup :
    (a b : Dict Bytes) (k : Bytes) → deep_equal a b ≡ true → lookup k a ≡ lookup k b
unfolding deep_equal
deep_equal-lookup a b k h = elim (Option-cases (lookup k a)) [
  | inr (v, e) ↦ e ∙ sym (entries_in_sound a b k v (ground arith) e)
  | inl e ↦ elim (Option-cases (lookup k b)) [
    | inr (v, f) ↦ entries_in_sound b a k v (ground arith) f ∙ sym f
    | inl f ↦ e ∙ sym f
  ]
]

module _ (o : Outside) (m : Mosquitto) (files : Dict Bytes) where
  open o use {owner_fault, crypto}
  open crypto use {Reader}

  abbrev key : Key
  key = key_of secret (build_auth_secret m files)

  abbrev stored : Stored secret
  stored = record { controller = some m.meta.uid; content = build_auth_secret m files }

  told-HoldsFiles :
      (call : Call) (obj : Stored secret) (s : State Reader)
      → is_controlled_by obj m ≡ true
      → ((k : Bytes) → lookup k obj.content.files ≡ lookup k files)
      → (tell o call (λ c. record c { objects = put secret key obj c.objects }) s).0 ≡ ok tt
      → HoldsFiles m files
          (tell o call (λ c. record c { objects = put secret key obj c.objects }) s).1.cluster
  told-HoldsFiles call obj s own has =
      elim (tell_cases o call (λ c. record c { objects = put secret key obj c.objects }) s) [
        | inl t ↦ rw t (λ _. record {
          live = obj;
          is_stored = put_self secret key obj s.cluster.objects;
          is_owned = own;
          has_files = has;
        })
        | inr (y, t) ↦ rw t (λ bad. absurd (err_not_ok bad))
      ]

  renewed-HoldsFiles :
      (current : Stored secret) (s : State Reader)
      → s.cluster.objects secret key ≡ some current
      → is_controlled_by current m ≡ true
      → (renew o secret stored current s).0 ≡ ok tt
      → HoldsFiles m files (renew o secret stored current s).1.cluster
  unfolding renew update agrees updated build_auth_secret
  renewed-HoldsFiles current s e own =
      elim (Bool-cases (agrees secret current.content (build_auth_secret m files))) [
        | inl q ↦ rw q (λ _. record {
          live = current;
          is_stored = e;
          is_owned = own;
          has_files = λ k. deep_equal-lookup current.content.files files k (ground arith);
        })
        | inr q ↦ rw q (
            told-HoldsFiles (Call.update secret key)
              (record current {
                content = updated secret current.content (build_auth_secret m files);
              })
              s own (λ k. refl))
      ]

  written-HoldsFiles :
      (x : Option (Stored secret)) (s : State Reader)
      → s.cluster.objects secret key ≡ x
      → (write_over o secret m stored x s).0 ≡ ok tt
      → HoldsFiles m files (write_over o secret m stored x s).1.cluster
  unfolding write_over create ensure_owned build_auth_secret
  written-HoldsFiles none s e =
      told-HoldsFiles (Call.create secret key) stored s (=?_refl m.meta.uid) (λ k. refl)
  written-HoldsFiles (some current) s e = elim (Bool-cases (is_controlled_by current m)) [
    | inl q ↦ rw q (renewed-HoldsFiles current s e q)
    | inr q ↦ rw q (λ bad. absurd (err_not_ok bad))
  ]

  pub reconciled-HoldsFiles :
      (s : State Reader)
      → (reconcile_auth_secret o m files s).0 ≡ ok tt
      → HoldsFiles m files (reconcile_auth_secret o m files s).1.cluster
  unfolding reconcile_auth_secret ensure set_controller owned read
  reconciled-HoldsFiles s = elim (Option-cases (owner_fault secret key)) [
    | inr (x, q) ↦ rw q (λ bad. absurd (err_not_ok bad))
    | inl q ↦ rw q (elim (ask_cases o (Call.read secret key) (λ c. c.objects secret key) s) [
      | inl t ↦ rw t (
          written-HoldsFiles (s.cluster.objects secret key) (traced o (Call.read secret key) s)
            refl)
      | inr (y, t) ↦ rw t (λ bad. absurd (err_not_ok bad))
    ])
  ]
