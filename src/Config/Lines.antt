-- ===== src/Config/Lines.antt =====
-- The lines of the generated file: what spec.config can add to it, and what it cannot.
use mosquitto_operator.Base.{
  ℕ, zero, suc, ◌+◌, ◌≡◌, ◌≢◌, refl, sym, ap, ◌∙◌, false, none, some, List, [], ◌∷◌, ◌++◌, Bytes,
  codes, ◌==◌, ◌=?◌, if◌then◌else◌, arith, append_assoc, append-nil, bytes_discrete, Option-cases,
  Bool-cases, inl, inr,
}
use mosquitto_operator.Base.Dict.{member}
use mosquitto_operator.Base.Runes.{fields, trim_space}
use mosquitto_operator.Base.Strings.{has_prefix, split, join, trim_right, push}
use mosquitto_operator.Api.{Mosquitto, is_tls_enabled}
use mosquitto_operator.Config.Defs.{
  preamble, listener, listener_options, appended, is_line_break, generate_mosquitto_conf,
  allowed_config_directives, directive_of, validate_lines, validate_spec_config,
}

-- The lines of a file that carry a directive.
unfoldable pub with_directive : Bytes → List Bytes → List Bytes
with_directive d [] = []
with_directive d (line ∷ lines) = elim (directive_of (fields line)) [
  | none ↦ with_directive d lines
  | some e ↦ if e =? d then line ∷ with_directive d lines else with_directive d lines
]

pub lines_of : Bytes → Bytes → List Bytes
lines_of d text = with_directive d (split text 10)

-- The lines of a list of texts, one after the other.
unfoldable pub all_lines : List Bytes → List Bytes
all_lines [] = []
all_lines (t ∷ ts) = split t 10 ++ all_lines ts

push-append : (c : ℕ) (xs ys : List Bytes) → xs ≢ [] → push c (xs ++ ys) ≡ push c xs ++ ys
push-append c [] ys h = absurd (h refl)
push-append c (x ∷ xs) ys h = refl

split-ne-nil : (sep : ℕ) (s : Bytes) → split s sep ≢ []
unfolding split
split-ne-nil sep [] = cc
split-ne-nil sep (c ∷ s) = ground (arith, split-ne-nil sep s)

split-sep : (sep : ℕ) (a b : Bytes) → split (a ++ sep ∷ b) sep ≡ split a sep ++ split b sep
unfolding split
split-sep sep [] b = ground arith
split-sep sep (c ∷ a) b =
    ground (arith, split-sep sep a b, push-append c (split a sep) (split b sep), split-ne-nil sep a)

split-join_lines : (t : Bytes) (ts : List Bytes) → split (join (t ∷ ts) 10) 10 ≡ all_lines (t ∷ ts)
unfolding join all_lines
split-join_lines t [] = sym (append-nil (split t 10))
split-join_lines t (u ∷ ts) =
    split-sep 10 t (join (u ∷ ts) 10) ∙ ap (λ ls. split t 10 ++ ls) (split-join_lines u ts)

with_directive-append :
    (d : Bytes) (xs ys : List Bytes)
    → with_directive d (xs ++ ys) ≡ with_directive d xs ++ with_directive d ys
unfolding with_directive
with_directive-append d [] ys = refl
with_directive-append d (x ∷ xs) ys = ground (arith, with_directive-append d xs ys)

all_lines-append : (xs ys : List Bytes) → all_lines (xs ++ ys) ≡ all_lines xs ++ all_lines ys
unfolding all_lines
all_lines-append [] ys = refl
all_lines-append (x ∷ xs) ys = simp (all_lines-append xs ys, append_assoc)

-- A directive that is not on the allowlist heads no line of a valid spec.config.
with_directive-nil :
    (d : Bytes) (i : ℕ) (lines : List Bytes)
    → member d allowed_config_directives ≡ false
    → validate_lines i lines ≡ none
    → with_directive d lines ≡ []
unfolding with_directive validate_lines
with_directive-nil d i [] h v = refl
with_directive-nil d i (l ∷ lines) h v = elim (Option-cases (directive_of (fields l))) [
  | inl e ↦ ground (arith, with_directive-nil d (i + 1) lines)
  | inr (f, e) ↦ elim (Bool-cases (member f allowed_config_directives)) [
    | inl ok ↦ elim (bytes_discrete f d) [
      | yes same ↦
          absurd (ground (arith, ap (λ (x : Bytes). member x allowed_config_directives) same))
      | no other ↦ ground (arith, with_directive-nil d (i + 1) lines)
    ]
    | inr bad ↦ absurd (ground arith)
  ]
]

breaks : ℕ → Bytes
breaks zero = []
breaks (suc n) = 10 ∷ breaks n

trim_step :
    (c : ℕ) (s t : Bytes) (n : ℕ)
    → s ≡ t ++ breaks n
    → (m : ℕ) × (c ∷ s
        ≡ (elim t [ [] ↦ if is_line_break c then [] else c ∷ [] | d ∷ r ↦ c ∷ d ∷ r ]) ++ breaks m)
unfolding breaks is_line_break
trim_step c s [] n e = elim (Bool-cases (c == 10)) [
  | inl nl ↦ (suc n, rw nl (ground arith))
  | inr other ↦ (n, rw other (ap (◌∷◌ c) e))
]
trim_step c s (d ∷ r) n e = (n, ap (◌∷◌ c) e)

trim_right-breaks : (s : Bytes) → (n : ℕ) × (s ≡ trim_right is_line_break s ++ breaks n)
unfolding trim_right breaks is_line_break
trim_right-breaks [] = (0, refl)
trim_right-breaks (c ∷ s) =
    let (n, e) = trim_right-breaks s in trim_step c s (trim_right is_line_break s) n e

append-nil_left : {A : Type 0} (xs ys : List A) → xs ++ ys ≡ [] → xs ≡ []
append-nil_left [] ys h = refl
append-nil_left (x ∷ xs) ys h = cc

trimmed_nil :
    (d t : Bytes) (n : ℕ)
    → with_directive d (split (t ++ breaks n) 10) ≡ []
    → with_directive d (split t 10) ≡ []
unfolding breaks
trimmed_nil d t zero h = rw append-nil at h
trimmed_nil d t (suc n) h = append-nil_left _ _ (
    sym (with_directive-append d (split t 10) (split (breaks n) 10))
    ∙ ap (with_directive d) (sym (split-sep 10 t (breaks n)))
    ∙ h)

comment_nil :
    (d : Bytes)
    → with_directive d
        (split (codes "# spec.config, appended after every line passed the allowlist.") 10)
      ≡ []
unfolding with_directive split fields directive_of has_prefix
comment_nil d = refl

comment_block :
    (d t : Bytes)
    → with_directive d (split t 10) ≡ []
    → with_directive d (
        all_lines
          (codes "# spec.config, appended after every line passed the allowlist." ∷ t ∷ [] ∷ []))
      ≡ []
unfolding all_lines
comment_block d t h =
    rw (with_directive-append, comment_nil d, with_directive-append, h)
      (unfold with_directive split fields directive_of in refl)

-- What spec.config appends carries no directive off the allowlist.
appended-nil :
    (d config : Bytes)
    → member d allowed_config_directives ≡ false
    → validate_lines 0 (split config 10) ≡ none
    → with_directive d (all_lines (appended config)) ≡ []
unfolding appended
appended-nil d config h v = elim (Bool-cases (trim_space config =? [])) [
  | inl blank ↦ rw blank (unfold all_lines with_directive in refl)
  | inr text ↦
      let (n, e) = trim_right-breaks config in
      let trimmed = trim_right is_line_break config in
      let none_before = with_directive-nil d 0 (split config 10) h v in
      rw text (
        comment_block d trimmed (
          trimmed_nil d trimmed n
            (ap (λ (c : Bytes). with_directive d (split c 10)) (sym e) ∙ none_before)))
]

generated_lines :
    (ts : List Bytes) → split (join (preamble ++ ts) 10) 10 ≡ all_lines (preamble ++ ts)
unfolding preamble
generated_lines ts = split-join_lines _ _

regroup :
    (ls more : List Bytes)
    → preamble ++ (ls ++ (listener_options ++ more))
      ≡ (preamble ++ (ls ++ listener_options)) ++ more
regroup ls more = simp append_assoc

-- The directives of the generated file that are not on the allowlist are those of the generated
-- block.
pub lines_of_generated :
    (m : Mosquitto) (d : Bytes)
    → validate_spec_config m ≡ none
    → member d allowed_config_directives ≡ false
    → lines_of d (generate_mosquitto_conf m)
      ≡ with_directive d (all_lines (preamble ++ (listener (is_tls_enabled m) ++ listener_options)))
unfolding lines_of generate_mosquitto_conf validate_spec_config
lines_of_generated m d v h =
    let block = preamble ++ (listener (is_tls_enabled m) ++ listener_options) in
    let more = appended m.spec.config in
    ap (with_directive d) (
      generated_lines (listener (is_tls_enabled m) ++ (listener_options ++ more))
      ∙ ap all_lines (regroup (listener (is_tls_enabled m)) more)
      ∙ all_lines-append block more)
    ∙ with_directive-append d (all_lines block) (all_lines more)
    ∙ (rw (appended-nil d m.spec.config h v) (append-nil _))
