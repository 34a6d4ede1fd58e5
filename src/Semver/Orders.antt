-- ===== src/Semver/Orders.antt =====
-- Comparisons with three results, and how they are put together.
use Prim.Native.Nat.{compare, Ordering}
use Prim.Native.Nat.Ordering.{lt, eq, gt}
use relkit.Prelude.{ap, ◌≡◌, sym, ◌∙◌, arith, ltb_str_trans, ltb_str_asym, ltb_str_total}
use relkit.Semver.{compare_str}

abbrev pub swap : Ordering → Ordering
swap lt = gt
swap eq = eq
swap gt = lt

abbrev pub or_next : Ordering → Ordering → Ordering
or_next lt second = lt
or_next eq second = second
or_next gt second = gt

-- A total preorder, by its comparison.
pub record IsOrder {ℓ} {A : Type ℓ} (cmp : A → A → Ordering) : Type ℓ where
  pub swapped : (a b : A) → cmp b a ≡ swap (cmp a b)
  pub same : (a b c : A) → cmp a b ≡ eq → cmp a c ≡ cmp b c
  pub below : (a b c : A) → cmp a b ≡ lt → cmp b c ≡ lt → cmp a c ≡ lt

pub compare-IsOrder : IsOrder compare
compare-IsOrder = record { swapped = ground arith; same = ground arith; below = ground arith }

pub compare_str-IsOrder : IsOrder compare_str
unfolding compare_str
compare_str-IsOrder = record {
  swapped = λ a b. ground (arith, ltb_str_asym a b, ltb_str_asym b a);
  same = λ a b c e. ap (λ x. compare_str x c) (ground (arith, ltb_str_total a b));
  below = λ a b c. ground (arith, ltb_str_trans a b c);
}

module _ {ℓ} {A : Type ℓ} where
  pub by-IsOrder {κ} :
      {B : Type κ} {cmp : B → B → Ordering} (f : A → B)
      → IsOrder cmp
      → IsOrder (λ a b. cmp (f a) (f b))
  by-IsOrder f o = record {
    swapped = λ a b. o.swapped (f a) (f b);
    same = λ a b c. o.same (f a) (f b) (f c);
    below = λ a b c. o.below (f a) (f b) (f c);
  }

  pub or_next-IsOrder :
      {one two : A → A → Ordering}
      → IsOrder one
      → IsOrder two
      → IsOrder (λ a b. or_next (one a b) (two a b))
  or_next-IsOrder p q = record {
    swapped = λ a b. ground (arith, p.swapped a b, q.swapped a b);
    same = λ a b c. ground (arith, p.same a b c, q.same a b c);
    below = λ a b c. ground (
      arith,
      p.swapped a b,
      p.swapped b c,
      p.swapped a c,
      p.same a b c,
      p.same b c a,
      p.same c b a,
      p.below a b c,
      q.below a b c,
    );
  }

  pub of_eq-IsOrder :
      {one two : A → A → Ordering} → ((a b : A) → one a b ≡ two a b) → IsOrder two → IsOrder one
  of_eq-IsOrder e o = record {
    swapped = λ a b. rw (e b a, e a b) (o.swapped a b);
    same = λ a b c h. rw (e a c, e b c) (o.same a b c (sym (e a b) ∙ h));
    below = λ a b c h k. e a c ∙ o.below a b c (sym (e a b) ∙ h) (sym (e b c) ∙ k);
  }
