-- ===== src/Base/Sorting/Alike.antt =====
-- Sorting two arrangements of the same values gives values that compare as equal, place by place.
use Prim.Native.Nat.{Ordering}
use native.Mathlib.Omega.{arith}
use Prim.Native.Nat.Ordering.{lt, eq, gt}
use mathlib.Core.Path.{◌≡◌, refl, sym, ap, subst, ◌∙◌}
use mathlib.Core.List.{List, [], ◌∷◌, Permᴰ}
use dogpile.Base.Sorting.{opposite, IsOrdering, place, insert_with, sort_with, Matched}

module _ {A : Type 0} where
  insert_with-past :
      (c : A → A → Ordering) (x y : A) (ys : List A)
      → c x y ≡ gt
      → insert_with c x (y ∷ ys) ≡ y ∷ insert_with c x ys
  unfolding insert_with place
  insert_with-past c x y ys e = ap (λ o. place o x y ys (insert_with c x ys)) e

  insert_with-here :
      (c : A → A → Ordering) (x y : A) (ys : List A)
      → c x y ≡ lt
      → insert_with c x (y ∷ ys) ≡ x ∷ y ∷ ys
  unfolding insert_with place
  insert_with-here c x y ys e = ap (λ o. place o x y ys (insert_with c x ys)) e

  insert_with-level :
      (c : A → A → Ordering) (x y : A) (ys : List A)
      → c x y ≡ eq
      → insert_with c x (y ∷ ys) ≡ x ∷ y ∷ ys
  unfolding insert_with place
  insert_with-level c x y ys e = ap (λ o. place o x y ys (insert_with c x ys)) e

  -- `x < y` and `y` stays before `z`.
  both_before :
      (c : A → A → Ordering) (x y z : A) (zs : List A)
      → c x y ≡ lt
      → c y x ≡ gt
      → c x z ≡ lt
      → insert_with c y (z ∷ zs) ≡ y ∷ z ∷ zs
      → insert_with c x (insert_with c y (z ∷ zs)) ≡ insert_with c y (insert_with c x (z ∷ zs))
  both_before c x y z zs less more front stays =
      ap (insert_with c x) stays
      ∙ insert_with-here c x y (z ∷ zs) less
      ∙ sym (
          ap (insert_with c y) (insert_with-here c x z zs front)
          ∙ insert_with-past c y x (z ∷ zs) more
          ∙ ap (λ w. x ∷ w) stays)

  -- `x` stays before `z`, which is before `y`.
  one_before :
      (c : A → A → Ordering) (x y z : A) (zs : List A)
      → c y x ≡ gt
      → c y z ≡ gt
      → ((w : List A) → insert_with c x (z ∷ w) ≡ x ∷ z ∷ w)
      → insert_with c x (insert_with c y (z ∷ zs)) ≡ insert_with c y (insert_with c x (z ∷ zs))
  one_before c x y z zs more past front =
      ap (insert_with c x) (insert_with-past c y z zs past)
      ∙ front (insert_with c y zs)
      ∙ sym (
          ap (insert_with c y) (front zs)
          ∙ insert_with-past c y x (z ∷ zs) more
          ∙ ap (λ w. x ∷ w) (insert_with-past c y z zs past))

  pub level_right : (c : A → A → Ordering) → IsOrdering c → (x y z : A) → c x y ≡ eq → c z x ≡ c z y
  level_right c laws x y z h =
      laws.flips x z ∙ ap opposite (laws.level x y z h) ∙ sym (laws.flips y z)

  less_step :
      (c : A → A → Ordering)
      → IsOrdering c
      → (x y z : A) (zs : List A) (oy ox : Ordering) → c x y ≡ lt
      → c y z ≡ oy
      → c x z ≡ ox
      → insert_with c x (insert_with c y zs) ≡ insert_with c y (insert_with c x zs)
      → insert_with c x (insert_with c y (z ∷ zs)) ≡ insert_with c y (insert_with c x (z ∷ zs))
  unfolding opposite
  less_step c lin x y z zs lt ox e f g ih =
      both_before c x y z zs e (lin.flips x y ∙ ap opposite e) (lin.less_trans x y z e f)
        (insert_with-here c y z zs f)
  less_step c lin x y z zs eq ox e f g ih =
      both_before c x y z zs e (lin.flips x y ∙ ap opposite e) (sym (level_right c lin y z x f) ∙ e)
        (insert_with-level c y z zs f)
  less_step c lin x y z zs gt lt e f g ih =
      one_before c x y z zs (lin.flips x y ∙ ap opposite e) f (λ w. insert_with-here c x z w g)
  less_step c lin x y z zs gt eq e f g ih =
      one_before c x y z zs (lin.flips x y ∙ ap opposite e) f (λ w. insert_with-level c x z w g)
  less_step c lin x y z zs gt gt e f g ih =
      ap (insert_with c x) (insert_with-past c y z zs f)
      ∙ insert_with-past c x z (insert_with c y zs) g
      ∙ ap (λ w. z ∷ w) ih
      ∙ sym (
          ap (insert_with c y) (insert_with-past c x z zs g)
          ∙ insert_with-past c y z (insert_with c x zs) f)

  insert_less :
      (c : A → A → Ordering)
      → IsOrdering c
      → (x y : A) (zs : List A) → c x y ≡ lt
      → insert_with c x (insert_with c y zs) ≡ insert_with c y (insert_with c x zs)
  unfolding insert_with opposite place
  insert_less c lin x y [] e =
      insert_with-here c x y [] e ∙ sym (insert_with-past c y x [] (lin.flips x y ∙ ap opposite e))
  insert_less c lin x y (z ∷ zs) e =
      less_step c lin x y z zs (c y z) (c x z) e refl refl (insert_less c lin x y zs e)

self_opposite : (o : Ordering) → o ≡ opposite o → o ≡ eq
unfolding opposite
self_opposite lt h = ground arith
self_opposite eq h = refl
self_opposite gt h = ground arith

module _ {A : Type 0} (c : A → A → Ordering) (laws : IsOrdering c) where
  Ties : A → A → Type 0
  Ties x y = c x y ≡ eq

  Ties-refl : (x : A) → Ties x x
  unfolding Ties
  Ties-refl x = self_opposite (c x x) (laws.flips x x)

  Ties-sym : (x y : A) → Ties x y → Ties y x
  unfolding Ties opposite
  Ties-sym x y h = laws.flips x y ∙ ap opposite h

  Matched-refl : (xs : List A) → Matched Ties xs xs
  unfolding Matched
  Matched-refl [] = tt
  Matched-refl (x ∷ xs) = (Ties-refl x, Matched-refl xs)

  Matched-eq : {xs ys : List A} → xs ≡ ys → Matched Ties xs ys
  Matched-eq {xs = xs} e = subst (Matched Ties xs) e (Matched-refl xs)

  Matched-trans : (xs ys zs : List A) → Matched Ties xs ys → Matched Ties ys zs → Matched Ties xs zs
  unfolding Matched Ties
  Matched-trans [] [] zs m n = n
  Matched-trans (x ∷ xs) (y ∷ ys) (z ∷ zs) (h, m) (k, n) =
      (laws.level x y z h ∙ k, Matched-trans xs ys zs m n)
  Matched-trans (x ∷ xs) (y ∷ ys) [] m n = absurd n
  Matched-trans [] (y ∷ ys) zs m n = absurd m
  Matched-trans (x ∷ xs) [] zs m n = absurd m

  place-Matched :
      (o : Ordering) (x x' y y' : A) (ys ys' rest rest' : List A)
      → Ties x x'
      → Ties y y'
      → Matched Ties ys ys'
      → Matched Ties rest rest'
      → Matched Ties (place o x y ys rest) (place o x' y' ys' rest')
  unfolding place Matched
  place-Matched lt x x' y y' ys ys' rest rest' h k m n = (h, (k, m))
  place-Matched eq x x' y y' ys ys' rest rest' h k m n = (h, (k, m))
  place-Matched gt x x' y y' ys ys' rest rest' h k m n = (k, n)

  insert_with-Matched :
      (x x' : A) (ys ys' : List A)
      → Ties x x'
      → Matched Ties ys ys'
      → Matched Ties (insert_with c x ys) (insert_with c x' ys')
  unfolding insert_with Matched Ties
  insert_with-Matched x x' [] [] h m = (h, tt)
  insert_with-Matched x x' (y ∷ ys) (y' ∷ ys') h (k, m) =
      subst
        (λ o.
          Matched Ties (place (c x y) x y ys (insert_with c x ys))
            (place o x' y' ys' (insert_with c x' ys')))
        (laws.level x x' y h ∙ level_right c laws y y' x' k)
        (place-Matched (c x y) x x' y y' ys ys' _ _ h k m (insert_with-Matched x x' ys ys' h m))
  insert_with-Matched x x' [] (y' ∷ ys') h m = absurd m
  insert_with-Matched x x' (y ∷ ys) [] h m = absurd m

  insert_any :
      (x y : A) (zs : List A) (o : Ordering)
      → c x y ≡ o
      → Matched Ties (insert_with c x (insert_with c y zs)) (insert_with c y (insert_with c x zs))
  unfolding opposite Ties
  insert_any x y zs lt e = Matched-eq (insert_less c laws x y zs e)
  insert_any x y zs eq e =
      Matched-trans _ (insert_with c y (insert_with c y zs)) _
        (insert_with-Matched x y _ _ e (Matched-refl (insert_with c y zs)))
        (insert_with-Matched y y _ _ (Ties-refl y)
          (insert_with-Matched y x zs zs (Ties-sym x y e) (Matched-refl zs)))
  insert_any x y zs gt e =
      Matched-eq (sym (insert_less c laws y x zs (laws.flips x y ∙ ap opposite e)))

  -- With a consistent comparator, two arrangements of the same values are sorted alike: place by place,
  -- the values compare as equal.
  pub sort_with-Matched :
      {xs ys : List A} → Permᴰ xs ys → Matched (λ x y. c x y ≡ eq) (sort_with c xs) (sort_with c ys)
  unfolding sort_with Ties Matched
  sort_with-Matched Permᴰ.nil = tt
  sort_with-Matched (Permᴰ.cons {a = a} {b = b} e p) =
      insert_with-Matched a b _ _ (ap (c a) (sym e) ∙ Ties-refl a) (sort_with-Matched p)
  sort_with-Matched (Permᴰ.swap {a} {b} {a'} {b'} {l} e f) =
      Matched-trans _ (insert_with c b (insert_with c a (sort_with c l))) _
        (insert_any a b (sort_with c l) (c a b) refl)
        (Matched-eq (
          ap (λ w. insert_with c w (insert_with c a (sort_with c l))) f
          ∙ ap (λ w. insert_with c a' (insert_with c w (sort_with c l))) e))
  sort_with-Matched (Permᴰ.trans p q) =
      Matched-trans _ _ _ (sort_with-Matched p) (sort_with-Matched q)
