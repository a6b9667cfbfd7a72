-- ===== src/Auth/Settles.antt =====
-- A pass over unchanged users changes nothing: what `Render` wrote it writes again.
use mosquitto_operator.Base.{
  ◌≡◌, ◌∙◌, refl, inl, inr, List, [], ◌++◌, arith, Bytes, In, All, All-append, In-All,
  In-append_left, In-append_right, length,
}
use mosquitto_operator.Base.Dict.{Dict, get_or}
use mosquitto_operator.Base.Results.{ok, Result-cases}
use mosquitto_operator.Base.Sort.{sort, All-sort, In-sort}
use mosquitto_operator.Auth.Defs.{Principal, Input, Accepted, Verdict}
use mosquitto_operator.Auth.Admitted.{IsAdmissible, check-IsAdmissible}
use mosquitto_operator.Auth.Distinct.{
  ArePrincipals, sort-distinct, AreEntries-IsClean, AreEntries-distinct, AreOwnEntries-IsClean,
  AreOwnEntries-distinct, append-distinct,
}
use mosquitto_operator.Auth.Entries.{
  HashesFit, AreEntries, AreOwnEntries, final_verdicts, accept_winners-AreEntries,
  accept_winners_again, accept_reserved-AreOwnEntries, accept_reserved_again,
}
use mosquitto_operator.Auth.Files.{hashes, passwd_key, render_files}
use mosquitto_operator.Auth.Fits.{hashes-HashesFit}
use mosquitto_operator.Auth.Hash.{Crypto}
use mosquitto_operator.Auth.ReadBack.{IsClean, HaveDistinctUsers, get_or-hashes-render_files}
use mosquitto_operator.Auth.Render.{
  RenderResult, file_payload, check_all, resolve_collisions, username_less, accept_winners,
  accept_reserved, render,
}
use mosquitto_operator.Auth.Winners.{
  HaveDistinctNames, check_all-All, resolve_collisions-All, resolve_collisions-AreOldest,
}

module _ (c : Crypto) where
  open c use {Reader}

  -- The winners of a pass, and the verdicts beside them.
  pub winners_of : List Input → List Input × Dict Verdict
  winners_of inputs =
      let (candidates, refusals) = check_all inputs [] in resolve_collisions candidates refusals

  -- A pass that succeeded, by its two loops.
  pub record Pass (inputs : List Input) (reserved : List Principal) (known : Dict Bytes)
      (random : Reader) (res : RenderResult) (rest : Reader) : Type 0 where
    pub users : List Accepted
    pub own : List Accepted
    pub verdicts : Dict Verdict
    pub next : Reader
    pub accepted :
        accept_winners c known (winners_of inputs).0 (winners_of inputs).1 random
        ≡ ok (users, verdicts, next)
    pub added : accept_reserved c known reserved next ≡ ok (own, rest)
    pub written : res ≡ record {
      content = render_files (sort username_less (users ++ own));
      verdicts = verdicts;
      accepted = length users;
    }

  pub render-Pass :
      (inputs : List Input) (reserved : List Principal) (previous : Dict Bytes) (random : Reader)
      (res : RenderResult) (rest : Reader)
      → render c file_payload inputs reserved previous random ≡ ok (res, rest)
      → Pass inputs reserved (hashes previous) random res rest
  unfolding render file_payload winners_of
  render-Pass inputs reserved previous random res rest e =
      let known = hashes previous in
      elim (Result-cases
        (accept_winners c known (winners_of inputs).0 (winners_of inputs).1 random)) [
          | inr (x, failed) ↦ absurd (ground arith)
          | inl ((us, vs, r), accepted) ↦ elim (Result-cases (accept_reserved c known reserved r)) [
            | inr (x, failed) ↦ absurd (ground arith)
            | inl ((own, r'), added) ↦ record {
              users = us;
              own = own;
              verdicts = vs;
              next = r;
              accepted = accepted;
              added = ground arith;
              written = ground arith;
            }
          ]
        ]

  pub winners-IsAdmissible : (inputs : List Input) → All IsAdmissible (winners_of inputs).0
  unfolding winners_of
  winners-IsAdmissible inputs =
      resolve_collisions-All IsAdmissible _ _
        (check_all-All IsAdmissible check-IsAdmissible inputs [])

  winners-distinct : (inputs : List Input) → HaveDistinctNames (winners_of inputs).0
  unfolding winners_of
  winners-distinct inputs = (resolve_collisions-AreOldest _ _).distinct

  -- `Render` is its two loops, one after the other.
  render_of_loops :
      (inputs : List Input) (reserved : List Principal) (current : Dict Bytes) (random : Reader)
      (res : RenderResult) (users own : List Accepted) (verdicts : Dict Verdict)
      → res ≡ record {
        content = render_files (sort username_less (users ++ own));
        verdicts = verdicts;
        accepted = length users;
      }
      → accept_winners c (hashes current) (winners_of inputs).0 (winners_of inputs).1 random
        ≡ ok (users, verdicts, random)
      → accept_reserved c (hashes current) reserved random ≡ ok (own, random)
      → render c file_payload inputs reserved current random ≡ ok (res, random)
  unfolding render file_payload winners_of
  render_of_loops inputs reserved current random res users own verdicts w a o = rw (a, o, w)

  -- What a pass that succeeded wrote: entries of its winners and of the operator's principals,
  -- each on its line and no two of one name.
  module _ {inputs : List Input} {reserved : List Principal} {known : Dict Bytes} {random : Reader}
      {res : RenderResult} {rest : Reader} (p : Pass inputs reserved known random res rest)
      (fit : HashesFit known) (own : ArePrincipals reserved) where
    pub entries :
        AreEntries c (winners_of inputs).0 p.users
        × (p.verdicts ≡ final_verdicts (winners_of inputs).0 (winners_of inputs).1)
    entries = accept_winners-AreEntries c known _ _ random p.users p.verdicts p.next fit p.accepted

    pub own_entries : AreOwnEntries c reserved p.own
    own_entries = accept_reserved-AreOwnEntries c known reserved p.next p.own rest fit p.added

    pub clean : All IsClean (sort username_less (p.users ++ p.own))
    clean = All-sort username_less IsClean (p.users ++ p.own) (
        All-append IsClean p.users p.own
          (AreEntries-IsClean c _ p.users (winners-IsAdmissible inputs) entries.0)
          (AreOwnEntries-IsClean c reserved p.own own own_entries))

    distinct : HaveDistinctUsers (sort username_less (p.users ++ p.own))
    distinct = sort-distinct username_less (p.users ++ p.own) (
        append-distinct c _ p.users p.own reserved (winners-IsAdmissible inputs) entries.0
          own_entries (AreEntries-distinct c _ p.users (winners-distinct inputs) entries.0)
          (AreOwnEntries-distinct c reserved p.own own own_entries))

    -- The next pass reads back what this one wrote.
    pub remembered :
        (u : Accepted)
        → In u (p.users ++ p.own)
        → get_or u.username [] (hashes (render_files (sort username_less (p.users ++ p.own))))
          ≡ u.hash
    remembered u m =
        get_or-hashes-render_files (sort username_less (p.users ++ p.own)) u clean distinct
          ((In-sort username_less u (p.users ++ p.own)).1 m)

  hashes_of_passwd :
      (a b : Dict Bytes) → get_or passwd_key [] a ≡ get_or passwd_key [] b → hashes a ≡ hashes b
  unfolding hashes
  hashes_of_passwd a b e = rw e

  -- One pass over unchanged users and principals after another, with the passwd file of the first
  -- as the one in force: the second gives the same result - the same bytes, verdicts and count -
  -- and reads no salt, so the reader of salts comes back as it was. The operator's own principals
  -- have to be named apart, on one line and without a colon.
  pub render_settles :
      (inputs : List Input) (reserved : List Principal) (previous : Dict Bytes) (random : Reader)
      (res : RenderResult) (rest : Reader) (current : Dict Bytes) (random' : Reader)
      → ArePrincipals reserved
      → render c file_payload inputs reserved previous random ≡ ok (res, rest)
      → get_or passwd_key [] current ≡ get_or passwd_key [] res.content
      → render c file_payload inputs reserved current random' ≡ ok (res, random')
  render_settles inputs reserved previous random res rest current random' own e same =
      let fit = hashes-HashesFit previous in
      let p = render-Pass inputs reserved previous random res rest e in
      let us = p.users ++ p.own in
      let known : hashes current ≡ hashes (render_files (sort username_less us)) =
        hashes_of_passwd current _ (same ∙ (rw p.written refl)) in
      let users =
        In-All (λ u. get_or u.username [] (hashes current) ≡ u.hash) p.users
          (λ u m. rw known (remembered p fit own u (In-append_left u p.users p.own m))) in
      let owns =
        In-All (λ u. get_or u.username [] (hashes current) ≡ u.hash) p.own
          (λ u m. rw known (remembered p fit own u (In-append_right u p.users p.own m))) in
      render_of_loops inputs reserved current random' res p.users p.own p.verdicts p.written
        (accept_winners_again c _ _ _ random' p.users (entries p fit own).0 users
          ∙ rw (entries p fit own).1 refl)
        (accept_reserved_again c _ reserved random' p.own (own_entries p fit own) owns)
