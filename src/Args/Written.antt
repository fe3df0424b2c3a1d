-- ===== src/Args/Written.antt =====
-- Formats that are written for a list of locations, and how gjs_parse_call_args
-- (cjs/jsapi-util-args.h) counts and splits them.
use mathlib.Core.List.{append-nil}
use cjs.Prelude.{
  ℕ, suc, ◌+◌, ◌≡◌, refl, sym, ap, ◌∙◌, Bool, true, false, List, [], ◌∷◌, ◌++◌, length, arith,
}
use cjs.Args.{
  Character, bang, bar, question, letter, Kind, letter_of, count_formats, split_format, strip_bang,
}

-- What is to be read for a location: its kind, and whether it may be null.
abbrev pub Spec : Type 0
Spec = Kind × Bool

abbrev pub write_spec : Spec → List Character → List Character
write_spec (kind, true) cs = question ∷ letter (letter_of kind) ∷ cs
write_spec (kind, false) cs = letter (letter_of kind) ∷ cs

abbrev pub write_specs : List Spec → List Character
write_specs [] = []
write_specs (spec ∷ specs) = write_spec spec (write_specs specs)

abbrev pub write_format : List Spec → List Spec → List Character
write_format required [] = write_specs required
write_format required (spec ∷ specs) = write_specs required ++ (bar ∷ write_specs (spec ∷ specs))

abbrev pub with_bang : Bool → List Character → List Character
with_bang true format = bang ∷ format
with_bang false format = format

count_specs :
    (specs : List Spec) (cs : List Character) (required total : ℕ) (has_optional : Bool)
    → count_formats (write_specs specs ++ cs) required total has_optional
      ≡ count_formats cs required (total + length specs) has_optional
unfolding count_formats
count_specs [] cs required total has_optional =
    ap (λ k. count_formats cs required k has_optional) (omega arith)
count_specs ((kind, true) ∷ specs) cs required total has_optional =
    count_specs specs cs required (suc total) has_optional
    ∙ ap (λ k. count_formats cs required k has_optional) (omega arith)
count_specs ((kind, false) ∷ specs) cs required total has_optional =
    count_specs specs cs required (suc total) has_optional
    ∙ ap (λ k. count_formats cs required k has_optional) (omega arith)

split_specs :
    (specs : List Spec) (cs : List Character)
    → split_format (write_specs specs ++ (bar ∷ cs)) ≡ (write_specs specs, cs)
unfolding split_format
split_specs [] cs = refl
split_specs ((kind, true) ∷ specs) cs = rw (split_specs specs cs, split_format) refl
split_specs ((kind, false) ∷ specs) cs = rw (split_specs specs cs, split_format) refl

split_plain : (specs : List Spec) → split_format (write_specs specs) ≡ (write_specs specs, [])
unfolding split_format
split_plain [] = refl
split_plain ((kind, true) ∷ specs) = rw (split_plain specs, split_format) refl
split_plain ((kind, false) ∷ specs) = rw (split_plain specs, split_format) refl

pub count_format :
    (required optional : List Spec)
    → count_formats (write_format required optional) 0 0 false
      ≡ (length required, length required + length optional)
unfolding count_formats
count_format required [] =
    ap (λ cs. count_formats cs 0 0 false) (sym (append-nil (write_specs required)))
    ∙ count_specs required [] 0 0 false
    ∙ ground arith
count_format required (spec ∷ specs) =
    count_specs required (bar ∷ write_specs (spec ∷ specs)) 0 0 false
    ∙ ap (λ k. count_formats (bar ∷ write_specs (spec ∷ specs)) 0 k false) (omega arith)
    ∙ ap (λ cs. count_formats cs (length required) (length required) true)
        (sym (append-nil (write_specs (spec ∷ specs))))
    ∙ count_specs (spec ∷ specs) [] (length required) (length required) true

pub split_lem :
    (required optional : List Spec)
    → split_format (write_format required optional) ≡ (write_specs required, write_specs optional)
split_lem required [] = split_plain required
split_lem required (spec ∷ specs) = split_specs required (write_specs (spec ∷ specs))

pub strip_lem :
    (ignore : Bool) (required optional : List Spec)
    → strip_bang (with_bang ignore (write_format required optional))
      ≡ (ignore, write_format required optional)
strip_lem true required optional = refl
strip_lem false [] [] = refl
strip_lem false [] (spec ∷ specs) = refl
strip_lem false ((kind, true) ∷ rest) [] = refl
strip_lem false ((kind, false) ∷ rest) [] = refl
strip_lem false ((kind, true) ∷ rest) (spec ∷ specs) = refl
strip_lem false ((kind, false) ∷ rest) (spec ∷ specs) = refl
