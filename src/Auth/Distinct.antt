-- ===== src/Auth/Distinct.antt =====
-- The entries of one pass fit on their lines, and no two have one user name.
use mosquitto_operator.Base.{
  ℕ, ◌≡◌, ◌≢◌, sym, inl, inr, Bool, true, false, not, ◌||◌, List, [], ◌∷◌, ◌++◌, arith, Bytes, All,
  All-append, ◌=?◌, Bool-cases,
}
use mosquitto_operator.Base.Sort.{sort, insert_sorted, All-sort, All-insert_sorted}
use mosquitto_operator.Base.Strings.{Lacks, has_prefix, to_lower}
use mosquitto_operator.Auth.Defs.{
  Principal, Input, Accepted, reserved_prefix, is_username_byte, is_alnum,
}
use mosquitto_operator.Auth.Admitted.{IsAdmissible, IsUsername, IsUsernameByte}
use mosquitto_operator.Auth.Entries.{AreEntries, AreOwnEntries}
use mosquitto_operator.Auth.Hash.{Crypto}
use mosquitto_operator.Auth.ReadBack.{IsClean, HaveDistinctUsers}
use mosquitto_operator.Auth.Winners.{HaveDistinctNames}

-- What the operator's own principals are expected to be: named on one line, without a colon, and
-- no two alike.
abbrev pub ArePrincipals : List Principal → Type 0
ArePrincipals [] = Unit
ArePrincipals (p ∷ ps) =
    (Lacks b':' p.username × Lacks 10 p.username)
    × (All (λ q. q.username ≢ p.username) ps × ArePrincipals ps)

username_byte_plain : (c : ℕ) → is_username_byte c ≡ true → (c ≢ b':') × (c ≢ 10)
unfolding is_username_byte
username_byte_plain c h = ground arith

username_byte-Lacks : (s : Bytes) → All IsUsernameByte s → Lacks b':' s × Lacks 10 s
username_byte-Lacks [] h = (tt, tt)
username_byte-Lacks (c ∷ s) h = ground (arith, username_byte_plain c, username_byte-Lacks s h.1)

alnum_byte : (c : ℕ) → is_alnum c ≡ true → (c ≢ b':') × (c ≢ 10)
unfolding is_alnum
alnum_byte c h = ground arith

username-Lacks : (s : Bytes) → IsUsername s → (s ≢ []) × Lacks b':' s × Lacks 10 s
username-Lacks [] h = absurd h
username-Lacks (c ∷ s) h = ground (arith, alnum_byte c, username_byte-Lacks s h.1)

reserved_bytes :
    (a b c d : ℕ) (s : Bytes)
    → has_prefix (a ∷ b ∷ c ∷ d ∷ s) reserved_prefix ≡ true
    → (a ≡ b'm') × (b ≡ b'k') × (c ≡ b'o') × (d ≡ b'-')
unfolding has_prefix
reserved_bytes a b c d s h = ground arith

-- A name with the reserved prefix is reserved in lower case too.
reserved_lower :
    (s : Bytes)
    → has_prefix s reserved_prefix ≡ true
    → (rest : Bytes) × (to_lower s ≡ reserved_prefix ++ rest)
unfolding has_prefix to_lower
reserved_lower [] h = cc
reserved_lower (a ∷ []) h = absurd (ground arith)
reserved_lower (a ∷ b ∷ []) h = absurd (ground arith)
reserved_lower (a ∷ b ∷ c ∷ []) h = absurd (ground arith)
reserved_lower (a ∷ b ∷ c ∷ d ∷ s) h =
    let (ea, eb, ec, ed) = reserved_bytes a b c d s h in (to_lower s, rw (ea, eb, ec, ed))

allowed_prefix :
    (p : Principal)
    → (not (has_prefix p.username reserved_prefix) || p.password =? []) ≡ false
    → has_prefix p.username reserved_prefix ≡ true
allowed_prefix p h = ground arith

prefixed_ne_nil : (s : Bytes) → has_prefix s reserved_prefix ≡ true → s ≢ []
unfolding has_prefix
prefixed_ne_nil [] h = cc
prefixed_ne_nil (b ∷ s) h = cc

module _ (less : Accepted → Accepted → Bool) where
  insert-distinct :
      (u : Accepted) (us : List Accepted)
      → All (λ v. v.username ≢ u.username) us
      → HaveDistinctUsers us
      → HaveDistinctUsers (insert_sorted less u us)
  unfolding insert_sorted
  insert-distinct u [] a d = (tt, tt)
  insert-distinct u (v ∷ us) a d = elim (Bool-cases (less v u)) [
    | inl e ↦ rw e (
      All-insert_sorted less (λ w. w.username ≢ v.username) u us (λ p. a.0 (sym p)) d.0,
      insert-distinct u us a.1 d.1,
    )
    | inr e ↦ rw e (a, d)
  ]

  -- Sorting keeps names apart.
  pub sort-distinct : (us : List Accepted) → HaveDistinctUsers us → HaveDistinctUsers (sort less us)
  unfolding sort
  sort-distinct [] d = tt
  sort-distinct (u ∷ us) d =
      insert-distinct u (sort less us) (All-sort less (λ v. v.username ≢ u.username) us d.0)
        (sort-distinct us d.1)

module _ (c : Crypto) where
  pub AreEntries-IsClean :
      (is : List Input) (us : List Accepted)
      → All IsAdmissible is
      → AreEntries c is us
      → All IsClean us
  AreEntries-IsClean [] [] a h = tt
  AreEntries-IsClean [] (u ∷ us) a h = absurd h
  AreEntries-IsClean (i ∷ is) [] a h = absurd h
  AreEntries-IsClean (i ∷ is) (u ∷ us) a h =
      let (named, colon, line) = username-Lacks i.username a.0.username in
      (
        record {
          named = rw h.0.name named;
          no_colon = rw h.0.name colon;
          one_line = rw h.0.name line;
          hash_one_line = h.0.one_line;
        },
        AreEntries-IsClean is us a.1 h.1,
      )

  apart :
      (k : Bytes) (is : List Input) (us : List Accepted)
      → AreEntries c is us
      → All (λ i. i.username ≢ k) is
      → All (λ u. u.username ≢ k) us
  apart k [] [] h a = tt
  apart k [] (u ∷ us) h a = absurd h
  apart k (i ∷ is) [] h a = absurd h
  apart k (i ∷ is) (u ∷ us) h a = (rw h.0.name a.0, apart k is us h.1 a.1)

  pub AreEntries-distinct :
      (is : List Input) (us : List Accepted)
      → HaveDistinctNames is
      → AreEntries c is us
      → HaveDistinctUsers us
  AreEntries-distinct [] [] d h = tt
  AreEntries-distinct [] (u ∷ us) d h = absurd h
  AreEntries-distinct (i ∷ is) [] d h = absurd h
  AreEntries-distinct (i ∷ is) (u ∷ us) d h =
      (rw h.0.name (apart i.username is us h.1 d.0), AreEntries-distinct is us d.1 h.1)

  pub AreOwnEntries-IsClean :
      (ps : List Principal) (us : List Accepted)
      → ArePrincipals ps
      → AreOwnEntries c ps us
      → All IsClean us
  AreOwnEntries-IsClean [] [] a h = tt
  AreOwnEntries-IsClean [] (u ∷ us) a h = absurd h
  AreOwnEntries-IsClean (p ∷ ps) [] a h = absurd h
  AreOwnEntries-IsClean (p ∷ ps) (u ∷ us) a h = (
    record {
      named = rw h.0.name (prefixed_ne_nil p.username (allowed_prefix p h.0.allowed));
      no_colon = rw h.0.name a.0.0;
      one_line = rw h.0.name a.0.1;
      hash_one_line = h.0.one_line;
    },
    AreOwnEntries-IsClean ps us a.1.1 h.1,
  )

  own_apart :
      (k : Bytes) (ps : List Principal) (us : List Accepted)
      → AreOwnEntries c ps us
      → All (λ p. p.username ≢ k) ps
      → All (λ u. u.username ≢ k) us
  own_apart k [] [] h a = tt
  own_apart k [] (u ∷ us) h a = absurd h
  own_apart k (p ∷ ps) [] h a = absurd h
  own_apart k (p ∷ ps) (u ∷ us) h a = (rw h.0.name a.0, own_apart k ps us h.1 a.1)

  pub AreOwnEntries-distinct :
      (ps : List Principal) (us : List Accepted)
      → ArePrincipals ps
      → AreOwnEntries c ps us
      → HaveDistinctUsers us
  AreOwnEntries-distinct [] [] d h = tt
  AreOwnEntries-distinct [] (u ∷ us) d h = absurd h
  AreOwnEntries-distinct (p ∷ ps) [] d h = absurd h
  AreOwnEntries-distinct (p ∷ ps) (u ∷ us) d h =
      (rw h.0.name (own_apart p.username ps us h.1 d.1.0), AreOwnEntries-distinct ps us d.1.1 h.1)

  -- No user takes a name of the operator's own.
  own_names_free :
      (i : Input) (ps : List Principal) (us : List Accepted)
      → IsAdmissible i
      → AreOwnEntries c ps us
      → All (λ u. u.username ≢ i.username) us
  own_names_free i [] [] a h = tt
  own_names_free i [] (u ∷ us) a h = absurd h
  own_names_free i (p ∷ ps) [] a h = absurd h
  own_names_free i (p ∷ ps) (u ∷ us) a h = (
    (λ e.
        let own : has_prefix i.username reserved_prefix ≡ true =
          rw (← e, h.0.name) (allowed_prefix p h.0.allowed) in
        let (rest, lower) = reserved_lower i.username own in a.unreserved rest lower),
    own_names_free i ps us a h.1,
  )

  pub append-distinct :
      (is : List Input) (us own : List Accepted) (ps : List Principal)
      → All IsAdmissible is
      → AreEntries c is us
      → AreOwnEntries c ps own
      → HaveDistinctUsers us
      → HaveDistinctUsers own
      → HaveDistinctUsers (us ++ own)
  append-distinct [] [] own ps a h ho du dd = dd
  append-distinct [] (u ∷ us) own ps a h ho du dd = absurd h
  append-distinct (i ∷ is) [] own ps a h ho du dd = absurd h
  append-distinct (i ∷ is) (u ∷ us) own ps a h ho du dd = (
    All-append (λ v. v.username ≢ u.username) us own du.0
        (rw h.0.name (own_names_free i ps own a.0 ho)),
    append-distinct is us own ps a.1 h.1 ho du.1 dd,
  )
