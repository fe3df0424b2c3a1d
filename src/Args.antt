-- ===== src/Args.antt =====
-- gjs_parse_call_args (cjs/jsapi-util-args.h). `none` is a failed assertion. The exceptions are told
-- apart by `Failure`, and the conversions of the JavaScript engine are the record Conversions.
pub mod Written
pub mod Formats
mod Examples
use cjs.Prelude.Options.{◌>>=◌}
use cjs.Prelude.{
  ℕ, zero, suc, Bool, true, false, Option, none, some, List, [], ◌∷◌, if◌then◌else◌, ◌==◌, ◌&&◌,
  ◌||◌, not, ltb, length, get_elem?,
}

-- A character of a format, by what the code tests it for; a letter by its code.
pub data Character : Type 0 where
  bang bar question : Character
  letter : ℕ → Character

-- The types of locations that `assign` is declared for.
pub data Kind : Type 0 where
  boolean object string filename int32 uint32 int64 double : Kind

-- The letter that a type of location asks for.
abbrev pub letter_of : Kind → ℕ
letter_of boolean = 98
letter_of object = 111
letter_of string = 115
letter_of filename = 70
letter_of int32 = 105
letter_of uint32 = 117
letter_of int64 = 116
letter_of double = 102

abbrev pub may_be_null : Kind → Bool
may_be_null object = true
may_be_null string = true
may_be_null filename = true
may_be_null _ = false

abbrev pub is_object : Kind → Bool
is_object object = true
is_object _ = false

pub data Failure : Type 0 where
  too_few too_many : Failure
  at_argument : (param_ix : ℕ) → Failure

-- What a value converts to for a type of location, if it does, and whether it is null.
pub record Conversions (Value Stored : Type 0) : Type 0 where
  pub convert : Kind → Value → Option Stored
  pub is_null : Value → Bool
  pub null_stored : Stored

pub record Param (Stored : Type 0) : Type 0 where
  pub kind : Kind
  pub location : Stored

-- Either every location, or the locations as they are left with the exception.
pub data Parsed (Stored : Type 0) : Type 0 where
  parsed : List (Param Stored) → Parsed Stored
  failed : Failure → List (Param Stored) → Parsed Stored

-- Whether a '?' stands in front, and what follows it.
unfoldable pub check_nullable : List Character → Option (Bool × List Character)
check_nullable (question ∷ []) = none
check_nullable (question ∷ c ∷ cs) = some (true, c ∷ cs)
check_nullable cs = some (false, cs)

abbrev pub is_letter : Kind → Character → Bool
is_letter kind (letter code) = code == letter_of kind
is_letter kind _ = false

-- The loop over the format: the letters before the last '|', if there is one, and all letters.
unfoldable pub count_formats :
    List Character → (n_required n_total : ℕ) → (optional_args : Bool) → ℕ × ℕ
count_formats [] n_required n_total optional_args =
    ((if optional_args then n_required else n_total), n_total)
count_formats (bar ∷ cs) n_required n_total optional_args = count_formats cs n_total n_total true
count_formats (question ∷ cs) n_required n_total optional_args =
    count_formats cs n_required n_total optional_args
count_formats (_ ∷ cs) n_required n_total optional_args =
    count_formats cs n_required (suc n_total) optional_args

-- `g_strsplit (format, "|", 2)`; without a '|' the second part is a null pointer, which the
-- helper must not read, as it must not read past the end of an empty one.
unfoldable pub split_format : List Character → List Character × List Character
split_format [] = ([], [])
split_format (bar ∷ cs) = ([], cs)
split_format (c ∷ cs) = (c ∷ (split_format cs).0, (split_format cs).1)

abbrev pub strip_bang : List Character → Bool × List Character
strip_bang (bang ∷ cs) = (true, cs)
strip_bang cs = (false, cs)

module _ {Value Stored : Type 0} (conversions : Conversions Value Stored) where
  open conversions use {convert, is_null, null_stored}

  abbrev stored : Param Stored → Option Stored → Option (Param Stored)
  stored param none = none
  stored param (some location) = some (record param { location = location })

  -- The overloads of `assign`; `none` is the message that they throw.
  unfoldable pub assign :
      Character → (nullable : Bool) → Value → Param Stored → Option (Param Stored)
  assign c nullable value param =
      if not (is_letter param.kind c)
      then none
      else if nullable && not (may_be_null param.kind)
      then none
      else if nullable && is_null value
      then some (record param { location = null_stored })
      else stored param (convert param.kind value)

  -- One step of the helper: the format that is left, and the location or the failure.
  pub data Step : Type 0 where
    untouched : Step
    wrong : Step
    assigned : Param Stored → Step

  abbrev pub step_of : Option (Param Stored) → Step
  step_of none = wrong
  step_of (some param) = assigned param

  unfoldable pub read_format :
      List Character → Value → Param Stored → Option (List Character × Step)
  unfolding check_nullable assign
  read_format format value param = do
    (nullable, rest) ← check_nullable format
    elim rest [ [] ↦ none | c ∷ cs ↦ some (cs, step_of (assign c nullable value param)) ]

  abbrev pub free_if_necessary : Param Stored → Param Stored
  free_if_necessary param =
      if is_object param.kind then record param { location = null_stored } else param

  abbrev pub keep : Param Stored → Parsed Stored → Parsed Stored
  keep param (parsed params) = parsed (param ∷ params)
  keep param (failed failure params) = failed failure (free_if_necessary param ∷ params)

  abbrev pub continue_with :
      Param Stored
      → (param_ix : ℕ) → List (Param Stored)
      → Step
      → Option (Parsed Stored)
      → Option (Parsed Stored)
  continue_with param param_ix rest untouched later = later >>= λ p. some (keep param p)
  continue_with param param_ix rest wrong later =
      some (failed (at_argument param_ix) (param ∷ rest))
  continue_with param param_ix rest (assigned param') later = later >>= λ p. some (keep param' p)

  unfoldable pub parse_call_args_helper :
      (args : List Value)
      → (fmt_required fmt_optional : List Character) → (param_ix : ℕ) → List (Param Stored)
      → Option (Parsed Stored)
  unfolding read_format
  parse_call_args_helper args required optional param_ix [] = some (parsed [])
  parse_call_args_helper args [] optional param_ix (param ∷ rest) = elim (get_elem? args param_ix) [
    | none ↦
        continue_with param param_ix rest untouched
          (parse_call_args_helper args [] optional (suc param_ix) rest)
    | some value ↦ read_format optional value param >>= λ (left, step).
        continue_with param param_ix rest step
          (parse_call_args_helper args [] left (suc param_ix) rest)
  ]
  parse_call_args_helper args (c ∷ cs) optional param_ix (param ∷ rest) =
      get_elem? args param_ix >>= λ value. read_format (c ∷ cs) value param >>= λ (left, step).
      continue_with param param_ix rest step
        (parse_call_args_helper args left optional (suc param_ix) rest)

  unfoldable pub gjs_parse_call_args :
      (args : List Value) → (format : List Character) → List (Param Stored) → Option (Parsed Stored)
  unfolding count_formats split_format parse_call_args_helper
  gjs_parse_call_args args format params =
      let (ignore_trailing_args, rest) = strip_bang format in
      let (n_required, n_total) = count_formats rest 0 0 false in
      if not (length params == n_total)
      then none
      else if ltb (length args) n_required
      then some (failed too_few params)
      else if not ignore_trailing_args && ltb n_total (length args)
      then some (failed too_many params)
      else parse_call_args_helper args (split_format rest).0 (split_format rest).1 0 params
