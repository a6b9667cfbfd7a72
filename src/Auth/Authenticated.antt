-- ===== src/Auth/Authenticated.antt =====
-- The users and the passwords of the passwd file of one pass of `Render`.
use mosquitto_operator.Base.{
  ◌≡◌, refl, ◌∙◌, inl, inr, true, ◌||◌, List, [], ◌∷◌, ◌++◌, map, arith, Bytes, All, In,
  In-append_left, In-append_right, Bool, ap,
}
use mosquitto_operator.Base.Dict.{Dict, get_or, keys, member}
use mosquitto_operator.Base.Results.{ok}
use mosquitto_operator.Base.Sort.{sort, insert_sorted}
use mosquitto_operator.Auth.Defs.{Principal, Input, Accepted}
use mosquitto_operator.Auth.Distinct.{ArePrincipals}
use mosquitto_operator.Auth.Entries.{AreEntries, AreOwnEntries}
use mosquitto_operator.Auth.Files.{hashes, render_files}
use mosquitto_operator.Auth.Fits.{hashes-HashesFit}
use mosquitto_operator.Auth.Hash.{Crypto, verify_password}
use mosquitto_operator.Auth.ReadBack.{usernames, member-hashes-render_files}
use mosquitto_operator.Auth.Render.{RenderResult, file_payload, username_less, render}
use mosquitto_operator.Auth.Settles.{
  winners_of, render-Pass, entries, own_entries, clean, remembered,
}

member-append :
    (k : Bytes) (js ks : List Bytes) → member k (js ++ ks) ≡ (member k js || member k ks)
member-append k [] ks = refl
member-append k (j ∷ js) ks = ground (arith, member-append k js ks)

-- Sorting keeps the names.
member-insert_sorted :
    (less : Accepted → Accepted → Bool) (k : Bytes) (u : Accepted) (us : List Accepted)
    → member k (usernames (insert_sorted less u us)) ≡ member k (usernames (u ∷ us))
unfolding insert_sorted
member-insert_sorted less k u [] = refl
member-insert_sorted less k u (v ∷ us) = ground (arith, member-insert_sorted less k u us)

member-sort :
    (less : Accepted → Accepted → Bool) (k : Bytes) (us : List Accepted)
    → member k (usernames (sort less us)) ≡ member k (usernames us)
unfolding sort
member-sort less k [] = refl
member-sort less k (u ∷ us) =
    member-insert_sorted less k u (sort less us) ∙ ground (arith, member-sort less k us)

usernames-append : (us vs : List Accepted) → usernames (us ++ vs) ≡ usernames us ++ usernames vs
usernames-append [] vs = refl
usernames-append (u ∷ us) vs = ap (λ ns. u.username ∷ ns) (usernames-append us vs)

abbrev pub input_names : List Input → List Bytes
input_names is = map (λ (i : Input). i.username) is

abbrev pub principal_names : List Principal → List Bytes
principal_names ps = map (λ (p : Principal). p.username) ps

module _ (c : Crypto) where
  open c use {Reader}

  -- The hash that is read for this user verifies this password.
  abbrev pub LetsIn : Dict Bytes → Bytes → Bytes → Type 0
  LetsIn files username password =
      verify_password c (get_or username [] (hashes files)) password ≡ true

  module _ (files : Dict Bytes) where
    entries-LetsIn :
        (is : List Input) (us : List Accepted)
        → AreEntries c is us
        → ((u : Accepted) → In u us → get_or u.username [] (hashes files) ≡ u.hash)
        → All (λ i. LetsIn files i.username i.password) is
    entries-LetsIn [] us h g = tt
    entries-LetsIn (i ∷ is) [] h g = absurd h
    entries-LetsIn (i ∷ is) (u ∷ us) h g = (
      rw (← h.0.name, g u (inl refl)) h.0.verified,
      entries-LetsIn is us h.1 (λ v m. g v (inr m)),
    )

    own_entries-LetsIn :
        (ps : List Principal) (us : List Accepted)
        → AreOwnEntries c ps us
        → ((u : Accepted) → In u us → get_or u.username [] (hashes files) ≡ u.hash)
        → All (λ p. LetsIn files p.username p.password) ps
    own_entries-LetsIn [] us h g = tt
    own_entries-LetsIn (p ∷ ps) [] h g = absurd h
    own_entries-LetsIn (p ∷ ps) (u ∷ us) h g = (
      rw (← h.0.name, g u (inl refl)) h.0.verified,
      own_entries-LetsIn ps us h.1 (λ v m. g v (inr m)),
    )

  entries-names :
      (is : List Input) (us : List Accepted) → AreEntries c is us → usernames us ≡ input_names is
  entries-names [] [] h = refl
  entries-names [] (u ∷ us) h = absurd h
  entries-names (i ∷ is) [] h = absurd h
  entries-names (i ∷ is) (u ∷ us) h = cc (h.0.name, entries-names is us h.1)

  own_entries-names :
      (ps : List Principal) (us : List Accepted)
      → AreOwnEntries c ps us
      → usernames us ≡ principal_names ps
  own_entries-names [] [] h = refl
  own_entries-names [] (u ∷ us) h = absurd h
  own_entries-names (p ∷ ps) [] h = absurd h
  own_entries-names (p ∷ ps) (u ∷ us) h = cc (h.0.name, own_entries-names ps us h.1)

  -- Where a pass succeeds and the operator's own principals are named apart, on one line and without
  -- a colon, `Hashes` reads in the passwd file that it writes a hash for each winner and each
  -- principal, against which `VerifyPassword` accepts its password, and it reads the user name `k`
  -- exactly when a winner or a principal has it.
  pub render-LetsIn :
      (inputs : List Input) (reserved : List Principal) (previous : Dict Bytes) (random : Reader)
      (res : RenderResult) (rest : Reader) (k : Bytes)
      → ArePrincipals reserved
      → render c file_payload inputs reserved previous random ≡ ok (res, rest)
      → All (λ i. LetsIn res.content i.username i.password) (winners_of c inputs).0
        × All (λ p. LetsIn res.content p.username p.password) reserved
        × (member k (keys (hashes res.content)) ≡ (
            member k (input_names (winners_of c inputs).0) || member k (principal_names reserved)))
  render-LetsIn inputs reserved previous random res rest k own e =
      let fit = hashes-HashesFit previous in
      let p = render-Pass c inputs reserved previous random res rest e in
      let won = (entries c p fit own).0 in
      let owned = own_entries c p fit own in
      let files = render_files (sort username_less (p.users ++ p.own)) in
      rw p.written (
        entries-LetsIn files _ p.users won
            (λ u m. remembered c p fit own u (In-append_left u p.users p.own m)),
        own_entries-LetsIn files reserved p.own owned
            (λ u m. remembered c p fit own u (In-append_right u p.users p.own m)),
        member-hashes-render_files k _ (clean c p fit own)
            ∙ member-sort username_less k (p.users ++ p.own)
            ∙ rw
                (
                  usernames-append p.users p.own,
                  entries-names _ p.users won,
                  own_entries-names reserved p.own owned,
                )
                (member-append k _ _),
      )
