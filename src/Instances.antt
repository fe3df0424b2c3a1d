-- ===== src/Instances.antt =====
-- The list of the instances that wrap a GObject (gi/object.cpp, gi/object.h): every ObjectInstance
-- has a GjsListLink, and wrapped_gobject_list points at the first. An instance is a number.
pub mod Chain
pub mod Laws
pub mod Sweep
mod Examples
use cjs.Prelude.Options.{◌>>=◌}
use cjs.Prelude.{
  ℕ, zero, suc, Bool, true, false, Option, none, some, List, [], ◌∷◌, ◌++◌, if◌then◌else◌, ◌==◌,
}

-- The store: the two fields of the link of each instance, and the static pointer.
pub record Links : Type 0 where
  pub prev : ℕ → Option ℕ
  pub next : ℕ → Option ℕ
  pub wrapped_gobject_list : Option ℕ

abbrev pub update : (ℕ → Option ℕ) → ℕ → Option ℕ → ℕ → Option ℕ
update field instance value x = if instance == x then value else field x

abbrev pub set_prev : ℕ → Option ℕ → Links → Links
set_prev instance value links = record links { prev = update links.prev instance value }

abbrev pub set_next : ℕ → Option ℕ → Links → Links
set_next instance value links = record links { next = update links.next instance value }

-- The instance that stands before `head`, if any, is made to point at the new one.
abbrev pub join : ℕ → Option ℕ → Links → Links
join this none links = links
join this (some before) links = set_prev this (some before) (set_next before (some this) links)

unfoldable pub prepend : ℕ → ℕ → Links → Links
prepend this head links =
    set_next this (some head) (set_prev head (some this) (join this (links.prev head) links))

abbrev pub bypass_next : ℕ → Option ℕ → Links → Links
bypass_next this none links = links
bypass_next this (some before) links = set_next before (links.next this) links

abbrev pub bypass_prev : ℕ → Option ℕ → Links → Links
bypass_prev this none links = links
bypass_prev this (some after) links = set_prev after (links.prev this) links

-- GjsListLink::unlink.
unfoldable pub unlink_link : ℕ → Links → Links
unlink_link this links =
    let links1 = bypass_next this (links.prev this) links in
    let links2 = bypass_prev this (links1.next this) links1 in
    set_next this none (set_prev this none links2)

-- ObjectInstance::link and ObjectInstance::unlink.
unfoldable pub link : ℕ → Links → Links
unfolding prepend
link this links =
    let linked : Links = elim links.wrapped_gobject_list [
      | none ↦ links
      | some head ↦ prepend this head links
    ] in
    record linked { wrapped_gobject_list = some this }

abbrev pub is_at : Option ℕ → ℕ → Bool
is_at none x = false
is_at (some y) x = y == x

unfoldable pub unlink : ℕ → Links → Links
unfolding unlink_link
unlink this links = unlink_link this (
    if is_at links.wrapped_gobject_list this
    then record links { wrapped_gobject_list = links.next this }
    else links)

-- GjsListLink::size, with fuel.
unfoldable pub size : ℕ → ℕ → ℕ → Links → Option ℕ
size zero elem count links = none
size (suc fuel) elem count links = elim (links.next elem) [
  | none ↦ some (suc count)
  | some next ↦ size fuel next (suc count) links
]

module _ {World : Type 0} where
  -- The loop over the list: the next instance is read before the action is called. With fuel.
  unfoldable pub iterate :
      ℕ → (ℕ → Links × World → Links × World) → Option ℕ → Links × World → Option (Links × World)
  iterate zero action at (links, w) = none
  iterate (suc fuel) action none (links, w) = some (links, w)
  iterate (suc fuel) action (some instance) (links, w) =
      iterate fuel action (links.next instance) (action instance (links, w))

  unfoldable pub iterate_wrapped_gobjects :
      ℕ → (ℕ → Links × World → Links × World) → Links × World → Option (Links × World)
  unfolding iterate
  iterate_wrapped_gobjects fuel action (links, w) =
      iterate fuel action links.wrapped_gobject_list (links, w)

abbrev pub for_each : {S : Type 0} → (ℕ → S → S) → List ℕ → S → S
for_each action [] s = s
for_each action (instance ∷ rest) s = for_each action rest (action instance s)

module _ {World : Type 0} (predicate : ℕ → World → Bool × World) where
  -- The body of the first loop: the instances that are taken out are kept in a vector.
  abbrev pub take_out : ℕ → Links × (World × List ℕ) → Links × (World × List ℕ)
  take_out instance (links, (w, removed)) =
      let (matches, w') = predicate instance w in
      if matches
      then (unlink instance links, (w', removed ++ instance ∷ []))
      else (links, (w', removed))

  unfoldable pub remove_wrapped_gobjects_if :
      ℕ → (ℕ → Links × World → Links × World) → Links × World → Option (Links × World)
  unfolding iterate_wrapped_gobjects unlink
  remove_wrapped_gobjects_if fuel action (links, w) =
      iterate_wrapped_gobjects fuel take_out (links, (w, [])) >>= λ done.
      let (links', (w', removed)) = done in some (for_each action removed (links', w'))
