-- ===== src/Args/Examples.antt =====
-- A call of gjs_parse_call_args (cjs/jsapi-util-args.h) with the format "s|?o".
use cjs.Prelude.{
  ℕ, ◌==◌, ◌≡◌, refl, true, false, some, List, [], ◌∷◌, ◌++◌, ◌+◌, ◌&&◌, not, ltb, length,
  if◌then◌else◌,
}
use cjs.Args.{Kind, Conversions, Param, failed, Failure, gjs_parse_call_args}
use cjs.Args.Written.{Spec, with_bang, write_format}
use cjs.Args.Formats.{assign_all, gjs_parse_call_args_lem}

-- Values and locations are numbers, and 0 is null.
abbrev numbers : Conversions ℕ ℕ
numbers = record {
  convert = λ kind value. some value;
  is_null = λ value. value == 0;
  null_stored = 0;
}

abbrev required : List Spec
required = (Kind.string, false) ∷ []

abbrev optional : List Spec
optional = (Kind.object, true) ∷ []

abbrev locations : List (Param ℕ)
locations =
    record { kind = Kind.string; location = 7 } ∷ record { kind = Kind.object; location = 8 } ∷ []

gjs_parse_call_args_lem_example :
    gjs_parse_call_args numbers
      (5 ∷ [])
      (with_bang false (write_format required optional))
      locations
    ≡ (if ltb 1 (length required)
        then some (failed Failure.too_few locations)
        else if not false && ltb (length required + length optional) 1
        then some (failed Failure.too_many locations)
        else assign_all numbers (5 ∷ []) (required ++ optional) 0 locations)
gjs_parse_call_args_lem_example =
    gjs_parse_call_args_lem numbers (5 ∷ []) false required optional locations refl
