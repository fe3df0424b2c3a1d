-- ===== src/Instances/Sweep.antt =====
-- The loops over the list of instances (gi/object.cpp), which take instances out while they run.
use mathlib.Core.Path.{subst}
use mathlib.Core.List.{append_assoc, append-nil}
use cjs.Prelude.Options.{◌>>=◌}
use cjs.Prelude.{
  ℕ, zero, suc, ◌+◌, ◌<◌, ◌≡◌, sym, ap, ◌∙◌, Bool, Option, none, some, List, [], ◌∷◌, ◌++◌,
  if◌then◌else◌, arith, length, inl, inr, Bool-cases,
}
use cjs.Instances.{
  Links, unlink, size, iterate, iterate_wrapped_gobjects, for_each, take_out,
  remove_wrapped_gobjects_if,
}
use cjs.Instances.Chain.{head, after-middle, remove-middle}
use cjs.Instances.Laws.{IsList, unlink_lem}

next-middle :
    (xs : List ℕ) (x : ℕ) (ys : List ℕ) (links : Links)
    → IsList (xs ++ x ∷ ys) links
    → links.next x ≡ head ys
next-middle xs x ys links h = h.next x ∙ after-middle xs x ys h.distinct

sizes :
    (fuel : ℕ) (xs : List ℕ) (x : ℕ) (ys : List ℕ) (count : ℕ) (links : Links)
    → IsList (xs ++ x ∷ ys) links
    → length ys < fuel
    → size fuel x count links ≡ some (suc count + length ys)
unfolding size
sizes zero xs x ys count links h enough = absurd (omega arith)
sizes (suc fuel) xs x [] count links h enough =
    rw (size, next-middle xs x [] links h) (ap some (omega arith))
sizes (suc fuel) xs x (y ∷ ys) count links h enough =
    ap (λ o. elim o [ none ↦ some (suc count) | some z ↦ size fuel z (suc count) links ])
      (next-middle xs x (y ∷ ys) links h)
    ∙ (sizes fuel (xs ++ x ∷ []) y ys (suc count) links
          (subst (λ l. IsList l links) (sym (append_assoc xs (x ∷ []) (y ∷ ys))) h) (omega arith)
        ∙ ap some (omega arith))

module _ {World : Type 0} (predicate : ℕ → World → Bool × World) where
  -- The predicate is asked of each instance in order: those that are kept, those that are not, and
  -- the world after.
  abbrev pub sweep : List ℕ → World → (List ℕ × List ℕ) × World
  sweep [] w = (([], []), w)
  sweep (x ∷ xs) w =
      let (matches, w1) = predicate x w in
      let ((kept, taken), w2) = sweep xs w1 in
      (if matches then (kept, x ∷ taken) else (x ∷ kept, taken), w2)

  -- The loop, when it stands before `ys` and has kept `xs`.
  sweeps :
      (fuel : ℕ) (xs ys removed : List ℕ) (links : Links) (w : World)
      → IsList (xs ++ ys) links
      → length ys < fuel
      → (links' : Links) × (iterate fuel (take_out predicate) (head ys) (links, (w, removed))
          ≡ some (links', ((sweep ys w).1, removed ++ (sweep ys w).0.1)))
        × IsList (xs ++ (sweep ys w).0.0) links'
  unfolding iterate
  sweeps zero xs ys removed links w h enough = absurd (omega arith)
  sweeps (suc fuel) xs [] removed links w h enough =
      (links, ap (λ r. some (links, (w, r))) (sym (append-nil removed)), h)
  sweeps (suc fuel) xs (y ∷ ys) removed links w h enough = elim (Bool-cases (predicate y w).0) [
    | inl e ↦
        rw (e, next-middle xs y ys links h)
          (let (links', f, law) =
              sweeps fuel xs ys (removed ++ y ∷ []) (unlink y links) (predicate y w).1
                (subst (λ l. IsList l (unlink y links)) (remove-middle xs y ys h.distinct)
                  (unlink_lem (xs ++ y ∷ ys) y links h))
                (omega arith) in
            (
              links',
              f
                  ∙ ap (λ r. some (links', ((sweep ys (predicate y w).1).1, r)))
                      (append_assoc removed (y ∷ []) (sweep ys (predicate y w).1).0.1),
              law,
            ))
    | inr e ↦
        rw (e, next-middle xs y ys links h)
          (let (links', f, law) =
              sweeps fuel (xs ++ y ∷ []) ys removed links (predicate y w).1
                (subst (λ l. IsList l links) (sym (append_assoc xs (y ∷ []) ys)) h) (omega arith) in
            (
              links',
              f,
              subst (λ l. IsList l links')
                  (append_assoc xs (y ∷ []) (sweep ys (predicate y w).1).0.0) law,
            ))
  ]

  -- Where the links stand for a list, and there is more fuel than it has instances: the instances
  -- for which the predicate holds are taken out, the others stay in their order, and only then the
  -- action is called, once for each that was taken out, in the order of the list.
  pub remove_wrapped_gobjects_if_lem :
      (fuel : ℕ) (action : ℕ → Links × World → Links × World) (xs : List ℕ) (links : Links)
      (w : World)
      → IsList xs links
      → length xs < fuel
      → (links' : Links) × (remove_wrapped_gobjects_if predicate fuel action (links, w)
          ≡ some (for_each action (sweep xs w).0.1 (links', (sweep xs w).1)))
        × IsList (sweep xs w).0.0 links'
  unfolding remove_wrapped_gobjects_if iterate_wrapped_gobjects
  remove_wrapped_gobjects_if_lem fuel action xs links w h enough =
      let (links', e, law) = sweeps fuel [] xs [] links w h enough in
      (
        links',
        ap (λ o. iterate fuel (take_out predicate) o (links, (w, [])) >>= finish) h.first
            ∙ ap (λ o. o >>= finish) e,
        law,
      )
    where
      finish : Links × (World × List ℕ) → Option (Links × World)
      finish (links', (w', removed)) = some (for_each action removed (links', w'))

-- The number of wrapped objects is the length of the list.
pub size_lem :
    (fuel x : ℕ) (xs : List ℕ) (links : Links)
    → IsList (x ∷ xs) links
    → length xs < fuel
    → size fuel x 0 links ≡ some (length (x ∷ xs))
size_lem fuel x xs links h enough = sizes fuel [] x xs 0 links h enough ∙ ap some (omega arith)
