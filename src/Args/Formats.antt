-- ===== src/Args/Formats.antt =====
-- What gjs_parse_call_args (cjs/jsapi-util-args.h) does with a format that is written for its
-- locations.
use cjs.Prelude.Options.{◌>>=◌}
use cjs.Prelude.{
  ℕ, zero, suc, ◌+◌, ◌<◌, ◌≤◌, ◌≡◌, refl, sym, ap, ◌∙◌, Bool, true, false, Option, none, some, List,
  [], ◌∷◌, ◌++◌, if◌then◌else◌, ◌&&◌, not, ltb, length, get_elem?, arith, Option-cases, inl, inr,
  ==_refl,
}
use cjs.Args.{
  Character, question, letter, Kind, letter_of, Failure, Conversions, Param, Parsed, parsed, failed,
  check_nullable, assign, read_format, parse_call_args_helper, gjs_parse_call_args, Step, step_of,
  untouched, continue_with,
}
use cjs.Args.Written.{
  Spec, write_spec, write_specs, write_format, with_bang, count_format, split_lem, strip_lem,
}

module _ {Value Stored : Type 0} (conversions : Conversions Value Stored) where
  -- Each location is assigned the argument at its position, as its spec says; where there is no
  -- argument it is left as it is.
  abbrev pub assign_all :
      List Value → List Spec → (param_ix : ℕ) → List (Param Stored) → Option (Parsed Stored)
  assign_all args specs param_ix [] = some (parsed [])
  assign_all args [] param_ix (param ∷ rest) = none
  assign_all args ((kind, nullable) ∷ specs) param_ix (param ∷ rest) =
      continue_with conversions param param_ix rest
        (elim (get_elem? args param_ix) [
          | none ↦ untouched
          | some value ↦
              step_of conversions
                (assign conversions (letter (letter_of kind)) nullable value param)
        ])
        (assign_all args specs (suc param_ix) rest)

  read_format_lem :
      (kind : Kind) (nullable : Bool) (cs : List Character) (value : Value) (param : Param Stored)
      → read_format conversions (write_spec (kind, nullable) cs) value param
        ≡ some (
          cs,
          step_of conversions (assign conversions (letter (letter_of kind)) nullable value param),
        )
  unfolding read_format check_nullable
  read_format_lem kind true cs value param = refl
  read_format_lem kind false cs value param = refl

  get_elem?-later :
      (args : List Value) (ix : ℕ) → get_elem? args ix ≡ none → get_elem? args (suc ix) ≡ none
  get_elem?-later [] ix e = refl
  get_elem?-later (v ∷ vs) zero e = absurd (ground arith)
  get_elem?-later (v ∷ vs) (suc ix) e = get_elem?-later vs ix e

  get_elem?-there : (args : List Value) (ix : ℕ) → ix < length args → ¬ (get_elem? args ix ≡ none)
  get_elem?-there [] ix h e = absurd (omega arith)
  get_elem?-there (v ∷ vs) zero h e = ground arith
  get_elem?-there (v ∷ vs) (suc ix) h e = get_elem?-there vs ix (omega arith) e

  -- Past the last argument nothing is assigned.
  missing_lem :
      (args : List Value) (optional : List Character) (ix : ℕ) (params : List (Param Stored))
      → get_elem? args ix ≡ none
      → parse_call_args_helper conversions args [] optional ix params ≡ some (parsed params)
  unfolding parse_call_args_helper
  missing_lem args optional ix [] e = refl
  missing_lem args optional ix (p ∷ ps) e =
      rw
        (
          parse_call_args_helper,
          e,
          missing_lem args optional (suc ix) ps (get_elem?-later args ix e),
        )
        refl

  assign_all-missing :
      (args : List Value) (specs : List Spec) (ix : ℕ) (params : List (Param Stored))
      → length params ≡ length specs
      → get_elem? args ix ≡ none
      → assign_all args specs ix params ≡ some (parsed params)
  assign_all-missing args specs ix [] same e = refl
  assign_all-missing args [] ix (p ∷ ps) same e = absurd (omega arith)
  assign_all-missing args ((kind, nullable) ∷ specs) ix (p ∷ ps) same e =
      rw (e, assign_all-missing args specs (suc ix) ps (omega arith) (get_elem?-later args ix e))
        refl

  optional_lem :
      (args : List Value) (specs : List Spec) (ix : ℕ) (params : List (Param Stored))
      → length params ≡ length specs
      → parse_call_args_helper conversions args [] (write_specs specs) ix params
        ≡ assign_all args specs ix params
  unfolding parse_call_args_helper
  optional_lem args specs ix [] same = refl
  optional_lem args [] ix (p ∷ ps) same = absurd (omega arith)
  optional_lem args ((kind, nullable) ∷ specs) ix (p ∷ ps) same =
      elim (Option-cases (get_elem? args ix)) [
        | inl e ↦
            missing_lem args (write_specs ((kind, nullable) ∷ specs)) ix (p ∷ ps) e
            ∙ sym (assign_all-missing args ((kind, nullable) ∷ specs) ix (p ∷ ps) same e)
        | inr (value, e) ↦
            rw
              (
                parse_call_args_helper,
                e,
                read_format_lem kind nullable (write_specs specs) value p,
                optional_lem args specs (suc ix) ps (omega arith),
              )
              refl
      ]

  -- One argument that must be there.
  required_step :
      (args : List Value) (c : Character) (cs left optional : List Character) (ix : ℕ)
      (p : Param Stored) (ps : List (Param Stored)) (value : Value) (step : Step conversions)
      → get_elem? args ix ≡ some value
      → read_format conversions (c ∷ cs) value p ≡ some (left, step)
      → parse_call_args_helper conversions args (c ∷ cs) optional ix (p ∷ ps)
        ≡ continue_with conversions p ix ps step
            (parse_call_args_helper conversions args left optional (suc ix) ps)
  unfolding parse_call_args_helper
  required_step args c cs left optional ix p ps value step e r =
      ap
        (λ found. found >>= λ v. read_format conversions (c ∷ cs) v p >>= λ (l, s).
          continue_with conversions p ix ps s
            (parse_call_args_helper conversions args l optional (suc ix) ps))
        e
      ∙ ap
          (λ made. made >>= λ (l, s).
            continue_with conversions p ix ps s
              (parse_call_args_helper conversions args l optional (suc ix) ps))
          r

  required_lem :
      (args : List Value) (required optional : List Spec) (ix : ℕ) (params : List (Param Stored))
      → length params ≡ length required + length optional
      → ix + length required ≤ length args
      → parse_call_args_helper conversions args
          (write_specs required)
          (write_specs optional)
          ix
          params
        ≡ assign_all args (required ++ optional) ix params
  required_lem args [] optional ix params same enough =
      optional_lem args optional ix params (omega (arith, same))
  required_lem args (spec ∷ specs) optional ix [] same enough = absurd (omega (arith, same))
  required_lem args ((kind, nullable) ∷ specs) optional ix (p ∷ ps) same enough =
      elim (Option-cases (get_elem? args ix)) [
        | inl e ↦ absurd (get_elem?-there args ix (omega arith) e)
        | inr (value, e) ↦
            by_nullable nullable value e
            ∙ rw (e, required_lem args specs optional (suc ix) ps (omega arith) (omega arith)) refl
      ]
    where
      by_nullable :
          (b : Bool) (value : Value)
          → get_elem? args ix ≡ some value
          → parse_call_args_helper conversions args
              (write_spec (kind, b) (write_specs specs))
              (write_specs optional)
              ix
              (p ∷ ps)
            ≡ continue_with conversions p ix ps
                (step_of conversions (assign conversions (letter (letter_of kind)) b value p))
                (parse_call_args_helper conversions args
                  (write_specs specs)
                  (write_specs optional)
                  (suc ix)
                  ps)
      by_nullable true value e =
          required_step args question (letter (letter_of kind) ∷ write_specs specs)
            (write_specs specs) (write_specs optional) ix p ps value _ e
            (read_format_lem kind true (write_specs specs) value p)
      by_nullable false value e =
          required_step args (letter (letter_of kind)) (write_specs specs) (write_specs specs)
            (write_specs optional) ix p ps value _ e
            (read_format_lem kind false (write_specs specs) value p)

  -- A format that is written for as many locations as are passed, first those that are required and
  -- then the optional ones, with a '!' in front or not: a call with fewer arguments than are required
  -- fails, one with more than there are locations fails unless there is a '!', and otherwise each
  -- location is assigned the argument at its position by its kind, up to the first that fails, and
  -- a location without an argument is left as it is; no assertion fails.
  pub gjs_parse_call_args_lem :
      (args : List Value) (ignore : Bool) (required optional : List Spec)
      (params : List (Param Stored))
      → length params ≡ length required + length optional
      → gjs_parse_call_args conversions args
          (with_bang ignore (write_format required optional))
          params
        ≡ (if ltb (length args) (length required)
            then some (failed Failure.too_few params)
            else if not ignore && ltb (length required + length optional) (length args)
            then some (failed Failure.too_many params)
            else assign_all args (required ++ optional) 0 params)
  unfolding gjs_parse_call_args
  gjs_parse_call_args_lem args ignore required optional params same =
      rw
        (
          strip_lem ignore required optional,
          count_format required optional,
          split_lem required optional,
          same,
          ==_refl (length required + length optional),
        )
        (by_count (ltb (length args) (length required)) refl)
    where
      many : Bool
      many = not ignore && ltb (length required + length optional) (length args)

      by_count :
          (b : Bool)
          → ltb (length args) (length required) ≡ b
          → (if b
              then some (failed Failure.too_few params)
              else if many
              then some (failed Failure.too_many params)
              else parse_call_args_helper conversions args
                  (write_specs required)
                  (write_specs optional)
                  0
                  params)
            ≡ (if b
                then some (failed Failure.too_few params)
                else if many
                then some (failed Failure.too_many params)
                else assign_all args (required ++ optional) 0 params)
      by_count true e = refl
      by_count false e =
          ap (λ r. if many then some (failed Failure.too_many params) else r)
            (required_lem args required optional 0 params same (ground arith))
