-- ===== src/Auth/ReadBack.antt =====
-- The passwd file is read back as it was written: `FilePayload.Hashes` after `FilePayload.Render`.
use mosquitto_operator.Base.{
  ◌≡◌, ◌≢◌, refl, sym, ap, ◌∙◌, inl, inr, some, List, [], ◌∷◌, ◌++◌, append_assoc, map, ◌||◌, Bool,
  true, false, arith, Bytes, In, All, All-append, bytes_discrete,
}
use mosquitto_operator.Base.Dict.{
  Dict, keys, member, member-keys, lookup, get_or, insert, get_or-lookup, lookup-insert,
}
use mosquitto_operator.Base.Strings.{cut, split, split-append, cut-append, Lacks}
use mosquitto_operator.Auth.Defs.{Accepted}
use mosquitto_operator.Auth.Files.{
  newline, read_line, read_lines, hashes, passwd_text, render_files,
}

-- A user that fits on a line of the passwd file.
pub record IsClean (u : Accepted) : Type 0 where
  pub named : u.username ≢ []
  pub no_colon : Lacks b':' u.username
  pub one_line : Lacks 10 u.username
  pub hash_one_line : Lacks 10 u.hash

abbrev pub HaveDistinctUsers : List Accepted → Type 0
HaveDistinctUsers [] = Unit
HaveDistinctUsers (u ∷ us) = All (λ v. v.username ≢ u.username) us × HaveDistinctUsers us

-- What reading the lines of `us` adds.
record_users : List Accepted → Dict Bytes → Dict Bytes
record_users [] known = known
record_users (u ∷ us) known = record_users us (insert u.username u.hash known)

abbrev line : Accepted → Bytes
line u = u.username ++ b':' ∷ u.hash

line-Lacks : (u : Accepted) → IsClean u → Lacks 10 (line u)
line-Lacks u h = All-append _ u.username (b':' ∷ u.hash) h.one_line (omega arith, h.hash_one_line)

read_line_of_clean :
    (u : Accepted) (known : Dict Bytes)
    → IsClean u
    → read_line (cut (line u) b':') known ≡ insert u.username u.hash known
unfolding read_line
read_line_of_clean u known h =
    rw (cut-append b':' u.username u.hash h.no_colon) (ground (arith, h.named))

split-passwd_text :
    (u : Accepted) (us : List Accepted)
    → IsClean u
    → split (passwd_text (u ∷ us)) 10 ≡ line u ∷ split (passwd_text us) 10
unfolding passwd_text
split-passwd_text u us h =
    ap (λ (s : Bytes). split s 10)
      (sym (append_assoc u.username (b':' ∷ u.hash) (newline (passwd_text us))))
    ∙ split-append 10 (line u) (passwd_text us) (line-Lacks u h)

read_lines-passwd_text :
    (us : List Accepted) (known : Dict Bytes)
    → All IsClean us
    → read_lines (split (passwd_text us) 10) known ≡ record_users us known
unfolding read_lines record_users
read_lines-passwd_text [] known h = unfold passwd_text split cut read_line in refl
read_lines-passwd_text (u ∷ us) known h =
    rw (split-passwd_text u us h.0, read_lines, read_line_of_clean u known h.0)
      (read_lines-passwd_text us (insert u.username u.hash known) h.1)

lookup_other :
    (k : Bytes) (us : List Accepted) (known : Dict Bytes)
    → All (λ v. v.username ≢ k) us
    → lookup k (record_users us known) ≡ lookup k known
unfolding record_users
lookup_other k [] known h = refl
lookup_other k (u ∷ us) known h = ground (
  arith,
  lookup_other k us (insert u.username u.hash known) h.1,
  lookup-insert k u.username u.hash known,
)

lookup_own :
    (u : Accepted) (us : List Accepted) (known : Dict Bytes)
    → HaveDistinctUsers us
    → In u us
    → lookup u.username (record_users us known) ≡ some u.hash
unfolding record_users
lookup_own u [] known d m = absurd m
lookup_own u (v ∷ us) known d (inl e) =
    rw e (lookup_other v.username us _ d.0 ∙ (rw lookup-insert (ground arith)))
lookup_own u (v ∷ us) known d (inr m) = lookup_own u us _ d.1 m

hashes-render_files :
    (us : List Accepted) → All IsClean us → hashes (render_files us) ≡ record_users us []
unfolding render_files
hashes-render_files us h = unfold hashes get_or bytes_discrete in read_lines-passwd_text us [] h

abbrev pub usernames : List Accepted → List Bytes
usernames us = map (λ (u : Accepted). u.username) us

member-record_users :
    (k : Bytes) (us : List Accepted) (known : Dict Bytes)
    → member k (keys (record_users us known)) ≡ (member k (usernames us) || member k (keys known))
unfolding record_users
member-record_users k [] known = refl
member-record_users k (u ∷ us) known = ground (
  arith,
  member-record_users k us (insert u.username u.hash known),
  member-keys k known,
  member-keys k (insert u.username u.hash known),
  lookup-insert k u.username u.hash known,
)

or_false : (b : Bool) → (b || false) ≡ b
or_false true = refl
or_false false = refl

-- The names that a pass reads are those of the users that the pass before rendered.
pub member-hashes-render_files :
    (k : Bytes) (us : List Accepted)
    → All IsClean us
    → member k (keys (hashes (render_files us))) ≡ member k (usernames us)
unfolding keys
member-hashes-render_files k us clean =
    rw (hashes-render_files us clean) (member-record_users k us [] ∙ or_false _)

-- The hash that a pass reads for a user is the one that the pass before rendered for it, if every
-- user fits on its line and no two have one name.
pub get_or-hashes-render_files :
    (us : List Accepted) (u : Accepted)
    → All IsClean us
    → HaveDistinctUsers us
    → In u us
    → get_or u.username [] (hashes (render_files us)) ≡ u.hash
get_or-hashes-render_files us u clean d m =
    rw (hashes-render_files us clean, get_or-lookup, lookup_own u us [] d m)
