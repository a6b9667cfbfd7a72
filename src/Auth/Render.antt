-- ===== src/Auth/Render.antt =====
-- internal/auth/render.go: one pass that turns the users of a broker into its credentials.
use mosquitto_operator.Base.{
  ℕ, Bool, true, false, not, ◌||◌, none, some, List, [], ◌∷◌, ◌++◌, Bytes, codes, ◌==◌, ◌=?◌, ltb,
  bytes_ltb, length, if◌then◌else◌,
}
use mathlib.Core.Logic.{ite}
use mosquitto_operator.Base.Dict.{Dict, lookup, get_or, insert}
use mosquitto_operator.Base.Results.{Result, ok, err, new, wrap, ◌>>=◌}
use mosquitto_operator.Base.Sort.{sort}
use mosquitto_operator.Base.Strings.{has_prefix}
use mosquitto_operator.Api.{MosquittoAcl, acl_discrete}
use mosquitto_operator.Auth.Defs.{
  Principal, Input, Accepted, Verdict, check, refused, reserved_prefix, reason_user_accepted,
  reason_username_conflict,
}
use mosquitto_operator.Auth.Files.{hashes, render_files}
use mosquitto_operator.Auth.Hash.{Crypto, keep_or_hash}

-- The mode-specific half of rendering.
pub record Payload : Type 0 where
  pub hashes : Dict Bytes → Dict Bytes
  pub render : List Accepted → Dict Bytes

pub record RenderResult : Type 0 where
  pub content : Dict Bytes
  pub verdicts : Dict Verdict
  pub accepted : ℕ

unfoldable pub file_payload : Payload
file_payload = record { hashes = hashes; render = render_files }

-- The first loop of `Render`: the candidates, and the verdicts of the inputs that are refused.
unfoldable pub check_all : List Input → Dict Verdict → List Input × Dict Verdict
check_all [] verdicts = ([], verdicts)
check_all (input ∷ inputs) verdicts = elim (check input) [
  | some verdict ↦ check_all inputs (insert input.name verdict verdicts)
  | none ↦ (let (candidates, rest) = check_all inputs verdicts in (input ∷ candidates, rest))
]

-- The order of `resolveCollisions`: by age, then by object name.
unfoldable pub older : Input → Input → Bool
older a b =
    if not (a.creation_timestamp == b.creation_timestamp)
    then ltb a.creation_timestamp b.creation_timestamp
    else bytes_ltb a.name b.name

abbrev conflict : Input → Bytes → Verdict
conflict input holder =
    refused reason_username_conflict (codes "username %q is held by the older MosquittoUser %s")
      (input.username ∷ holder ∷ [])

-- The loop of `resolveCollisions`, over the candidates in order.
unfoldable pub resolve : List Input → Dict Bytes → Dict Verdict → List Input × Dict Verdict
resolve [] holders verdicts = ([], verdicts)
resolve (input ∷ inputs) holders verdicts = elim (lookup input.username holders) [
  | some holder ↦ resolve inputs holders (insert input.name (conflict input holder) verdicts)
  | none ↦
      (let (winners, rest) = resolve inputs (insert input.username input.name holders) verdicts in
        (input ∷ winners, rest))
]

unfoldable pub resolve_collisions : List Input → Dict Verdict → List Input × Dict Verdict
unfolding resolve
resolve_collisions candidates verdicts = resolve (sort older candidates) [] verdicts

-- The order of `canonicalACLs`: by topic, then by access.
unfoldable pub acl_less : MosquittoAcl → MosquittoAcl → Bool
acl_less a b =
    if not (a.topic =? b.topic) then bytes_ltb a.topic b.topic else bytes_ltb a.access b.access

unfoldable pub acl_seen : MosquittoAcl → List MosquittoAcl → Bool
acl_seen acl [] = false
acl_seen acl (a ∷ seen) = ite (acl_discrete a acl) true (acl_seen acl seen)

-- The loop of `canonicalACLs`, with the entries that were met already.
unfoldable pub unseen_acls : List MosquittoAcl → List MosquittoAcl → List MosquittoAcl
unfolding acl_seen
unseen_acls [] seen = []
unseen_acls (acl ∷ acls) seen = elim (acl_seen acl seen) [
  | true ↦ unseen_acls acls seen
  | false ↦ acl ∷ unseen_acls acls (acl ∷ seen)
]

unfoldable pub canonical_acls : List MosquittoAcl → List MosquittoAcl
unfolding unseen_acls
canonical_acls acls = sort acl_less (unseen_acls acls [])

abbrev pub accepted_verdict : Input → Verdict
accepted_verdict input = record {
  accepted = true;
  reason = reason_user_accepted;
  message = record {
    format = codes "rendered into the broker's credentials as %q";
    args = input.username ∷ [];
  };
}

-- The order of the last sort of `Render`.
unfoldable pub username_less : Accepted → Accepted → Bool
username_less a b = bytes_ltb a.username b.username

module _ (c : Crypto) where
  open c use {Reader}

  -- The loop over the winners: their entries, and their verdicts.
  unfoldable pub accept_winners :
      Dict Bytes
      → List Input
      → Dict Verdict
      → Reader
      → Result (List Accepted × Dict Verdict × Reader)
  accept_winners known [] verdicts random = ok ([], verdicts, random)
  accept_winners known (input ∷ inputs) verdicts random = do
    (hash, random') ←
        wrap
          (record {
            format = codes "hashing the password of MosquittoUser %s: %w";
            args = input.name ∷ [];
          })
          (keep_or_hash c (get_or input.username [] known) input.password random)
    (rest, verdicts', random'') ←
        accept_winners known inputs (insert input.name (accepted_verdict input) verdicts) random'
    ok (
      record { username = input.username; hash = hash; acls = canonical_acls input.acls } ∷ rest,
      verdicts',
      random'',
    )

  -- The loop over the operator's own principals.
  unfoldable pub accept_reserved :
      Dict Bytes → List Principal → Reader → Result (List Accepted × Reader)
  accept_reserved known [] random = ok ([], random)
  accept_reserved known (p ∷ ps) random =
      if not (has_prefix p.username reserved_prefix) || p.password =? []
      then err (
          new (record {
            format = codes "the operator's principal %q needs the prefix %s and a password";
            args = p.username ∷ reserved_prefix ∷ [];
          }))
      else (do
        (hash, random') ←
            wrap
              (record { format = codes "hashing the password of %s: %w"; args = p.username ∷ [] })
              (keep_or_hash c (get_or p.username [] known) p.password random)
        (rest, random'') ← accept_reserved known ps random'
        ok (
          record { username = p.username; hash = hash; acls = canonical_acls p.acls } ∷ rest,
          random'',
        ))

  -- `Render`; the reader comes back beside the result.
  unfoldable pub render :
      Payload → List Input → List Principal → Dict Bytes → Reader → Result (RenderResult × Reader)
  render payload inputs reserved previous random = do
    let (candidates, refusals) = check_all inputs []
    let (winners, conflicts) = resolve_collisions candidates refusals
    let known = payload.hashes previous
    (users, verdicts, random') ← accept_winners known winners conflicts random
    (own, random'') ← accept_reserved known reserved random'
    ok (
      record {
        content = payload.render (sort username_less (users ++ own));
        verdicts = verdicts;
        accepted = length users;
      },
      random'',
    )
