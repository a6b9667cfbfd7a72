-- ===== src/Auth/Entries.antt =====
-- What the two loops of `Render` make of their inputs, and that a pass which remembers the hashes
-- makes the same entries without a new salt.
use mosquitto_operator.Base.{
  ◌≡◌, refl, inl, inr, true, false, not, ◌||◌, List, [], ◌∷◌, arith, Bytes, All, ◌=?◌, Bool-cases,
}
use mosquitto_operator.Base.Dict.{Dict, get_or, insert}
use mosquitto_operator.Base.Results.{ok, Result-cases}
use mosquitto_operator.Base.Strings.{Lacks, has_prefix}
use mosquitto_operator.Auth.Defs.{Principal, Input, Accepted, Verdict, reserved_prefix}
use mosquitto_operator.Auth.Hash.{Crypto, keep_or_hash, verify_password}
use mosquitto_operator.Auth.Render.{
  accept_winners, accept_reserved, canonical_acls, accepted_verdict,
}
use mosquitto_operator.Auth.Verified.{keep_or_hash_verifies, keep_or_hash_keeps, keep_or_hash-Lacks}

-- No hash that was read holds a line break.
abbrev pub HashesFit : Dict Bytes → Type 0
HashesFit known = (k : Bytes) → Lacks 10 (get_or k [] known)

-- The verdicts once every winner is accepted.
pub final_verdicts : List Input → Dict Verdict → Dict Verdict
final_verdicts [] verdicts = verdicts
final_verdicts (i ∷ is) verdicts = final_verdicts is (insert i.name (accepted_verdict i) verdicts)

-- The next pass reads for each user the hash that it has.
abbrev pub Remembers : Dict Bytes → List Accepted → Type 0
Remembers known = All (λ u. get_or u.username [] known ≡ u.hash)

module _ (c : Crypto) where
  open c use {Reader}

  -- An entry made of an input: its name and rights, and a hash of its password that fits a line.
  pub record IsEntry (i : Input) (u : Accepted) : Type 0 where
    pub name : u.username ≡ i.username
    pub acls : u.acls ≡ canonical_acls i.acls
    pub verified : verify_password c u.hash i.password ≡ true
    pub one_line : Lacks 10 u.hash

  abbrev pub AreEntries : List Input → List Accepted → Type 0
  AreEntries [] [] = Unit
  AreEntries (i ∷ is) (u ∷ us) = IsEntry i u × AreEntries is us
  AreEntries _ _ = ⊥

  -- One round of the loop over the winners that succeeded.
  pub record AcceptStep (known : Dict Bytes) (i : Input) (is : List Input) (verdicts : Dict Verdict)
      (random : Reader) (us : List Accepted) (vs : Dict Verdict) (rest : Reader) : Type 0 where
    pub hash : Bytes
    pub next : Reader
    pub users : List Accepted
    pub kept : keep_or_hash c (get_or i.username [] known) i.password random ≡ ok (hash, next)
    pub done :
        accept_winners c known is (insert i.name (accepted_verdict i) verdicts) next
        ≡ ok (users, vs, rest)
    pub written :
        us ≡ record { username = i.username; hash = hash; acls = canonical_acls i.acls } ∷ users

  accept_step :
      (known : Dict Bytes) (i : Input) (is : List Input) (verdicts : Dict Verdict) (random : Reader)
      (us : List Accepted) (vs : Dict Verdict) (rest : Reader)
      → accept_winners c known (i ∷ is) verdicts random ≡ ok (us, vs, rest)
      → AcceptStep known i is verdicts random us vs rest
  unfolding accept_winners
  accept_step known i is verdicts random us vs rest e =
      elim (Result-cases (keep_or_hash c (get_or i.username [] known) i.password random)) [
        | inr (x, failed) ↦ absurd (ground arith)
        | inl ((h, r), kept) ↦
            elim (Result-cases
              (accept_winners c known is (insert i.name (accepted_verdict i) verdicts) r)) [
                | inr (x, failed) ↦ absurd (ground arith)
                | inl ((us', vs', r'), done) ↦ record {
                  hash = h;
                  next = r;
                  users = us';
                  kept = kept;
                  done = ground arith;
                  written = ground arith;
                }
              ]
      ]

  pub accept_winners-AreEntries :
      (known : Dict Bytes) (is : List Input) (verdicts : Dict Verdict) (random : Reader)
      (us : List Accepted) (vs : Dict Verdict) (rest : Reader)
      → HashesFit known
      → accept_winners c known is verdicts random ≡ ok (us, vs, rest)
      → AreEntries is us × (vs ≡ final_verdicts is verdicts)
  unfolding final_verdicts
  accept_winners-AreEntries known [] verdicts random [] vs rest fit e =
      unfold accept_winners in ground arith
  accept_winners-AreEntries known [] verdicts random (u ∷ us) vs rest fit e =
      absurd (unfold accept_winners in ground arith)
  accept_winners-AreEntries known (i ∷ is) verdicts random us vs rest fit e =
      let s = accept_step known i is verdicts random us vs rest e in
      let (entries, written) =
        accept_winners-AreEntries known is _ s.next s.users vs rest fit s.done in
      (
        rw s.written (
          record {
            name = refl;
            acls = refl;
            verified = keep_or_hash_verifies c _ i.password random s.hash s.next s.kept;
            one_line =
                keep_or_hash-Lacks c _ i.password random s.hash s.next (fit i.username) s.kept;
          },
          entries,
        ),
        written,
      )

  -- A pass that remembers the hashes accepts the same users and reads no salt.
  pub accept_winners_again :
      (known : Dict Bytes) (is : List Input) (verdicts : Dict Verdict) (random : Reader)
      (us : List Accepted)
      → AreEntries is us
      → Remembers known us
      → accept_winners c known is verdicts random ≡ ok (us, final_verdicts is verdicts, random)
  unfolding accept_winners final_verdicts
  accept_winners_again known [] verdicts random [] h m = refl
  accept_winners_again known [] verdicts random (u ∷ us) h m = absurd h
  accept_winners_again known (i ∷ is) verdicts random [] h m = absurd h
  accept_winners_again known (i ∷ is) verdicts random (u ∷ us) h m =
      let known_hash : get_or i.username [] known ≡ u.hash = rw (← h.0.name) m.0 in
      let rest = insert i.name (accepted_verdict i) verdicts in
      rw
        (
          known_hash,
          keep_or_hash_keeps c u.hash i.password random h.0.verified,
          accept_winners_again known is rest random us h.1 m.1,
        )
        (cc (h.0.name, h.0.acls))

  -- An entry of the operator's own.
  pub record IsOwnEntry (p : Principal) (u : Accepted) : Type 0 where
    pub name : u.username ≡ p.username
    pub acls : u.acls ≡ canonical_acls p.acls
    pub verified : verify_password c u.hash p.password ≡ true
    pub one_line : Lacks 10 u.hash
    pub allowed : (not (has_prefix p.username reserved_prefix) || p.password =? []) ≡ false

  abbrev pub AreOwnEntries : List Principal → List Accepted → Type 0
  AreOwnEntries [] [] = Unit
  AreOwnEntries (p ∷ ps) (u ∷ us) = IsOwnEntry p u × AreOwnEntries ps us
  AreOwnEntries _ _ = ⊥

  -- One round of the loop over the operator's principals that succeeded.
  pub record OwnStep (known : Dict Bytes) (p : Principal) (ps : List Principal) (random : Reader)
      (us : List Accepted) (rest : Reader) : Type 0 where
    pub hash : Bytes
    pub next : Reader
    pub users : List Accepted
    pub allowed : (not (has_prefix p.username reserved_prefix) || p.password =? []) ≡ false
    pub kept : keep_or_hash c (get_or p.username [] known) p.password random ≡ ok (hash, next)
    pub done : accept_reserved c known ps next ≡ ok (users, rest)
    pub written :
        us ≡ record { username = p.username; hash = hash; acls = canonical_acls p.acls } ∷ users

  own_step :
      (known : Dict Bytes) (p : Principal) (ps : List Principal) (random : Reader)
      (us : List Accepted) (rest : Reader)
      → accept_reserved c known (p ∷ ps) random ≡ ok (us, rest)
      → OwnStep known p ps random us rest
  unfolding accept_reserved
  own_step known p ps random us rest e =
      elim (Bool-cases (not (has_prefix p.username reserved_prefix) || p.password =? [])) [
        | inl bad ↦ absurd (ground arith)
        | inr allowed ↦
            elim (Result-cases (keep_or_hash c (get_or p.username [] known) p.password random)) [
              | inr (x, failed) ↦ absurd (ground arith)
              | inl ((h, r), kept) ↦ elim (Result-cases (accept_reserved c known ps r)) [
                | inr (x, failed) ↦ absurd (ground arith)
                | inl ((us', r'), done) ↦ record {
                  hash = h;
                  next = r;
                  users = us';
                  allowed = allowed;
                  kept = kept;
                  done = ground arith;
                  written = ground arith;
                }
              ]
            ]
      ]

  pub accept_reserved-AreOwnEntries :
      (known : Dict Bytes) (ps : List Principal) (random : Reader) (us : List Accepted)
      (rest : Reader)
      → HashesFit known
      → accept_reserved c known ps random ≡ ok (us, rest)
      → AreOwnEntries ps us
  accept_reserved-AreOwnEntries known [] random [] rest fit e = tt
  accept_reserved-AreOwnEntries known [] random (u ∷ us) rest fit e =
      absurd (unfold accept_reserved in ground arith)
  accept_reserved-AreOwnEntries known (p ∷ ps) random us rest fit e =
      let s = own_step known p ps random us rest e in
      rw s.written (
        record {
          name = refl;
          acls = refl;
          verified = keep_or_hash_verifies c _ p.password random s.hash s.next s.kept;
          one_line = keep_or_hash-Lacks c _ p.password random s.hash s.next (fit p.username) s.kept;
          allowed = s.allowed;
        },
        accept_reserved-AreOwnEntries known ps s.next s.users rest fit s.done,
      )

  pub accept_reserved_again :
      (known : Dict Bytes) (ps : List Principal) (random : Reader) (us : List Accepted)
      → AreOwnEntries ps us
      → Remembers known us
      → accept_reserved c known ps random ≡ ok (us, random)
  unfolding accept_reserved
  accept_reserved_again known [] random [] h m = refl
  accept_reserved_again known [] random (u ∷ us) h m = absurd h
  accept_reserved_again known (p ∷ ps) random [] h m = absurd h
  accept_reserved_again known (p ∷ ps) random (u ∷ us) h m =
      let known_hash : get_or p.username [] known ≡ u.hash = rw (← h.0.name) m.0 in
      rw
        (
          h.0.allowed,
          known_hash,
          keep_or_hash_keeps c u.hash p.password random h.0.verified,
          accept_reserved_again known ps random us h.1 m.1,
        )
        (cc (h.0.name, h.0.acls))
