-- ===== src/Instances/Laws.antt =====
-- The links of the instances stand for a list (gi/object.cpp): linking puts an instance in front of
-- it, and unlinking takes one out.
use cjs.Prelude.{ℕ, ◌≡◌, refl, ap, ◌∙◌, false, none, List, [], ◌∷◌, if◌then◌else◌, ◌==◌, arith}
use cjs.Instances.{Links, is_at, link, unlink, unlink_link, prepend}
use cjs.Instances.Chain.{
  head, mem, IsDistinct, remove, before, after, before-absent, head-remove, before-remove,
  after-remove, is_at-before_self, remove-IsDistinct,
}

-- The pointers of every instance are those of its neighbours in the list; an instance that is not
-- in it has none.
pub record IsList (xs : List ℕ) (links : Links) : Type 0 where
  pub distinct : IsDistinct xs
  pub first : links.wrapped_gobject_list ≡ head xs
  pub prev : (g : ℕ) → links.prev g ≡ before none xs g
  pub next : (g : ℕ) → links.next g ≡ after xs g

-- Linking an instance that is not in the list puts it at the front.
pub link_lem :
    (xs : List ℕ) (g : ℕ) (links : Links)
    → IsList xs links
    → mem g xs ≡ false
    → IsList (g ∷ xs) (link g links)
unfolding link prepend
link_lem [] g links h fresh = record {
  distinct = (fresh, tt);
  first = refl;
  prev = λ x. ground (arith, h.first, h.prev x);
  next = λ x. ground (arith, h.first, h.next x);
}
link_lem (y ∷ ys) g links h fresh = record {
  distinct = (fresh, h.distinct);
  first = refl;
  prev = λ x.
      ground
        (arith, h.first, h.prev y, h.prev x, fresh, h.prev g ∙ before-absent none (y ∷ ys) g fresh);
  next = λ x. ground (arith, h.first, h.prev y, h.next x, fresh);
}

unlink-prev :
    (g x : ℕ) (links : Links)
    → is_at (links.prev g) g ≡ false
    → (unlink g links).prev x
      ≡ (if g == x then none else if is_at (links.next g) x then links.prev g else links.prev x)
unfolding unlink unlink_link
unlink-prev g x links h = ground (arith, h)

unlink-next :
    (g x : ℕ) (links : Links)
    → is_at (links.prev g) g ≡ false
    → (unlink g links).next x
      ≡ (if g == x then none else if is_at (links.prev g) x then links.next g else links.next x)
unfolding unlink unlink_link
unlink-next g x links h = ground (arith, h)

unlink-first :
    (g : ℕ) (links : Links)
    → (unlink g links).wrapped_gobject_list
      ≡ (if is_at links.wrapped_gobject_list g then links.next g else links.wrapped_gobject_list)
unfolding unlink unlink_link
unlink-first g links = ground arith

-- Unlinking an instance takes it out of the list and leaves the others in their order; an instance
-- that is not in the list changes nothing.
pub unlink_lem :
    (xs : List ℕ) (g : ℕ) (links : Links) → IsList xs links → IsList (remove g xs) (unlink g links)
unlink_lem xs g links h = record {
  distinct = remove-IsDistinct xs g h.distinct;
  first = ground (arith, unlink-first g links, head-remove xs g, h.first, h.next g);
  prev = λ x. rw (
    unlink-prev g x links alone,
    before-remove none xs g x h.distinct,
    h.next g,
    h.prev g,
    h.prev x,
  );
  next = λ x. rw (
    unlink-next g x links alone,
    after-remove none xs g x h.distinct refl,
    h.next g,
    h.prev g,
    h.next x,
  );
}
  where
    alone : is_at (links.prev g) g ≡ false
    alone = ap (λ o. is_at o g) (h.prev g) ∙ is_at-before_self none xs g refl
