-- ===== src/Base/Flags.antt =====
-- What the programs use of Go's package `flag`: `FlagSet.Parse` over flags that are texts, switches
-- and numbers. A value stays the text that it was given as; `Syntax` says which texts
-- `strconv.ParseInt` and `time.ParseDuration` accept.
use mosquitto_operator.Base.{
  Bool, true, Option, none, some, List, [], ◌∷◌, Bytes, codes, ◌=?◌, if◌then◌else◌, ◌==◌, ◌||◌,
}
use mosquitto_operator.Base.Dict.{Dict, lookup, get_or, insert, member}
use mosquitto_operator.Base.Results.{Result, ok, err, Error, external, new}
use mosquitto_operator.Base.Strings.{cut}

pub data FlagKind : Type 0 where
  text switch number duration : FlagKind

pub record Syntax : Type 0 where
  pub is_int : Bytes → Bool
  pub is_duration : Bytes → Bool

-- `strconv.ParseBool`
unfoldable pub true_texts : List Bytes
true_texts = codes "1" ∷ codes "t" ∷ codes "T" ∷ codes "true" ∷ codes "TRUE" ∷ codes "True" ∷ []

unfoldable pub false_texts : List Bytes
false_texts = codes "0" ∷ codes "f" ∷ codes "F" ∷ codes "false" ∷ codes "FALSE" ∷ codes "False" ∷ []

-- Whether a switch is on.
unfoldable pub is_set : Bytes → Dict Bytes → Bool
unfolding true_texts
is_set name values = member (get_or name [] values) true_texts

abbrev failure : Bytes → Bytes → Error
failure format name = new (record { format = format; args = name ∷ [] })

-- What an argument is: the end of the flags, a bad flag, or a flag, perhaps with its value.
pub data Form : Type 0 where
  stop : Form
  bad : Form
  flag : Bytes → Option Bytes → Form

-- `flag.ErrHelp`
abbrev pub help_requested : Error
help_requested = external (codes "flag: help requested")

abbrev of_cut : Bytes → Option (Bytes × Bytes) → Form
of_cut name none = flag name none
of_cut name (some (before, after)) = flag before (some after)

-- The name and the value behind the dashes.
unfoldable pub named : Bytes → Form
unfolding cut
named [] = bad
named (c ∷ name) = if c == b'-' || c == b'=' then bad else of_cut (c ∷ name) (cut (c ∷ name) b'=')

after_dash : Bytes → Form
unfolding named
after_dash [] = stop
after_dash (c ∷ rest) =
    if c == b'-' then (if rest =? [] then stop else named rest) else named (c ∷ rest)

unfoldable pub form : Bytes → Form
unfolding after_dash
form [] = stop
form (c ∷ rest) = if c == b'-' then after_dash rest else stop

-- What reading one flag leads to: the end of the parse, or the values with the rest of the
-- arguments, without the argument that was its value.
pub data Step : Type 0 where
  done : Result (Dict Bytes) → Step
  after_flag : Dict Bytes → Step
  after_value : Dict Bytes → Step

module _ (syn : Syntax) where
  open syn use {is_int, is_duration}

  accepts : FlagKind → Bytes → Bool
  unfolding true_texts false_texts
  accepts text value = true
  accepts switch value = member value true_texts || member value false_texts
  accepts number value = is_int value
  accepts duration value = is_duration value

  abbrev refusal : FlagKind → Bytes → Error
  refusal switch name = failure (codes "invalid boolean value for -%s") name
  refusal text name = failure (codes "invalid value for flag -%s") name
  refusal number name = failure (codes "invalid value for flag -%s") name
  refusal duration name = failure (codes "invalid value for flag -%s") name

  set_flag : FlagKind → Bytes → Bytes → Dict Bytes → (Dict Bytes → Step) → Step
  unfolding accepts
  set_flag kind name value values next =
      if accepts kind value then next (insert name value values) else done (err (refusal kind name))

  without_value : FlagKind → Bytes → Dict Bytes → Option Bytes → Step
  unfolding set_flag
  without_value switch name values next = set_flag switch name (codes "true") values after_flag
  without_value text name values none =
      done (err (failure (codes "flag needs an argument: -%s") name))
  without_value number name values none =
      done (err (failure (codes "flag needs an argument: -%s") name))
  without_value duration name values none =
      done (err (failure (codes "flag needs an argument: -%s") name))
  without_value text name values (some value) = set_flag text name value values after_value
  without_value number name values (some value) = set_flag number name value values after_value
  without_value duration name values (some value) = set_flag duration name value values after_value

  of_kind : Bytes → Option Bytes → Dict Bytes → Option Bytes → Option FlagKind → Step
  unfolding set_flag without_value
  of_kind name given values next none =
      if name =? codes "help" || name =? codes "h"
      then done (err help_requested)
      else done (err (failure (codes "flag provided but not defined: -%s") name))
  of_kind name (some value) values next (some kind) = set_flag kind name value values after_flag
  of_kind name none values next (some kind) = without_value kind name values next

  of_form : Dict FlagKind → Form → Bytes → Dict Bytes → Option Bytes → Step
  unfolding of_kind
  of_form flags stop arg values next = done (ok values)
  of_form flags bad arg values next = done (err (failure (codes "bad flag syntax: %s") arg))
  of_form flags (flag name given) arg values next =
      of_kind name given values next (lookup name flags)

  -- `parseOne`, with the argument that follows.
  unfoldable pub parse_one : Dict FlagKind → Bytes → Dict Bytes → Option Bytes → Step
  unfolding of_form form
  parse_one flags arg values next = of_form flags (form arg) arg values next

  -- `Parse` of the declared flags, from their defaults. What stands behind the flags is not used
  -- by the programs.
  unfoldable pub parse_flags : Dict FlagKind → Dict Bytes → List Bytes → Result (Dict Bytes)
  unfolding parse_one
  parse_flags flags values [] = ok values
  parse_flags flags values (arg ∷ []) = elim (parse_one flags arg values none) [
    | done r ↦ r
    | after_flag values' ↦ ok values'
    | after_value values' ↦ ok values'
  ]
  parse_flags flags values (arg ∷ next ∷ rest) = elim (parse_one flags arg values (some next)) [
    | done r ↦ r
    | after_flag values' ↦ parse_flags flags values' (next ∷ rest)
    | after_value values' ↦ parse_flags flags values' rest
  ]
