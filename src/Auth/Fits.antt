-- ===== src/Auth/Fits.antt =====
-- Every hash that is read out of a passwd file is a part of one of its lines.
use mosquitto_operator.Base.{
  ℕ, ◌≡◌, refl, Option, none, some, List, [], ◌∷◌, ◌++◌, arith, Bytes, All,
}
use mosquitto_operator.Base.Dict.{Dict, get_or, insert}
use mosquitto_operator.Base.Strings.{Lacks, split, split-Lacks, cut, cut_sound}
use mosquitto_operator.Auth.Entries.{HashesFit}
use mosquitto_operator.Auth.Files.{hashes, read_line, read_lines, passwd_key}

after_cut-Lacks :
    (c : ℕ) (s before after : Bytes) → cut s c ≡ some (before, after) → Lacks 10 s → Lacks 10 after
after_cut-Lacks c s before after e h =
    after_append before (rw (cut_sound c s before after e).0 at h)
  where
    after_append : (p : Bytes) → Lacks 10 (p ++ c ∷ after) → Lacks 10 after
    after_append [] h = h.1
    after_append (b ∷ p) h = after_append p h.1

get_or-insert-Lacks :
    (k j v : Bytes) (known : Dict Bytes)
    → Lacks 10 v
    → Lacks 10 (get_or k [] known)
    → Lacks 10 (get_or k [] (insert j v known))
unfolding get_or insert
get_or-insert-Lacks k j v [] hv h = ground arith
get_or-insert-Lacks k j v ((i, w) ∷ known) hv h = ground (arith, get_or-insert-Lacks k j v known hv)

read_line-HashesFit :
    (o : Option (Bytes × Bytes)) (known : Dict Bytes)
    → ((before after : Bytes) → o ≡ some (before, after) → Lacks 10 after)
    → HashesFit known
    → HashesFit (read_line o known)
unfolding read_line
read_line-HashesFit none known h fit = fit
read_line-HashesFit (some (before, after)) known h fit =
    λ k. ground (arith, fit k, h before after refl, get_or-insert-Lacks k before after known)

read_lines-HashesFit :
    (lines : List Bytes) (known : Dict Bytes)
    → All (Lacks 10) lines
    → HashesFit known
    → HashesFit (read_lines lines known)
unfolding read_lines
read_lines-HashesFit [] known h fit = fit
read_lines-HashesFit (l ∷ lines) known h fit =
    read_lines-HashesFit lines (read_line (cut l b':') known) h.1 (
      read_line-HashesFit (cut l b':') known
        (λ before after e. after_cut-Lacks b':' l before after e h.0) fit)

pub hashes-HashesFit : (previous : Dict Bytes) → HashesFit (hashes previous)
hashes-HashesFit previous =
    unfold hashes in
    read_lines-HashesFit (split (get_or passwd_key [] previous) 10) [] (split-Lacks 10 _)
      (λ k. unfold get_or in tt)
