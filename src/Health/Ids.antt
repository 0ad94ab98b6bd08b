-- ===== src/Health/Ids.antt =====
-- How often an id stands in a list and in the set made of it.
use dogpile.Base.{
  ℕ, ◌+◌, ◌≤◌, max, min, Bool, true, false, ◌||◌, String, List, [], ◌∷◌, ◌++◌, str_eq, str_eq_iff,
  has_string, add_all, set_of, if◌then◌else◌, ◌≡◌, refl, sym, ◌∙◌, ap, arith, Bool-cases, inl, inr,
}

abbrev pub one_if : Bool → ℕ
one_if b = if b then 1 else 0

true_ne_false : true ≡ false → ⊥
true_ne_false h = cc

moved :
    {b : Bool} (x id : String) (seen : List String)
    → str_eq x id ≡ true
    → has_string x seen ≡ b
    → has_string id seen ≡ b
moved x id seen e h = ap (λ y. has_string y seen) (sym ((str_eq_iff x id).0 e)) ∙ h

-- How often an id stands in a list.
abbrev pub occurrences : String → List String → ℕ
occurrences id [] = 0
occurrences id (x ∷ xs) = one_if (str_eq x id) + occurrences id xs

occurrences-append :
    (id : String) (xs ys : List String)
    → occurrences id (xs ++ ys) ≡ occurrences id xs + occurrences id ys
occurrences-append id [] ys = omega arith
occurrences-append id (x ∷ xs) ys = omega (arith, occurrences-append id xs ys)

found : (id : String) (xs : List String) → has_string id xs ≡ true → 1 ≤ occurrences id xs
found id [] h = cc
found id (x ∷ xs) h = elim (Bool-cases (str_eq x id)) [
  | inl e ↦ rw e (omega arith)
  | inr e ↦ rw e (omega (arith, found id xs (ap (λ b. b || has_string id xs) (sym e) ∙ h)))
]

absent : (id : String) (xs : List String) → has_string id xs ≡ false → occurrences id xs ≡ 0
absent id [] h = refl
absent id (x ∷ xs) h = elim (Bool-cases (str_eq x id)) [
  | inl e ↦ absurd (true_ne_false (ap (λ b. b || has_string id xs) (sym e) ∙ h))
  | inr e ↦ rw e (omega (arith, absent id xs (ap (λ b. b || has_string id xs) (sym e) ∙ h)))
]

occurrences-add :
    (id x : String) (seen : List String)
    → occurrences id (if has_string x seen then seen else seen ++ x ∷ [])
      ≡ max (occurrences id seen) (one_if (str_eq x id))
occurrences-add id x seen = elim (Bool-cases (has_string x seen)) [
  | inl h ↦ elim (Bool-cases (str_eq x id)) [
    | inl e ↦ rw (h, e) (omega (arith, found id seen (moved x id seen e h)))
    | inr e ↦ rw (h, e) (omega arith)
  ]
  | inr h ↦ elim (Bool-cases (str_eq x id)) [
    | inl e ↦
        rw (h, e)
          (omega (
            arith,
            occurrences-append id seen (x ∷ []),
            absent id seen (moved x id seen e h),
            ap one_if e,
          ))
    | inr e ↦ rw (h, e) (omega (arith, occurrences-append id seen (x ∷ []), ap one_if e))
  ]
]

one_if-le : (b : Bool) → one_if b ≤ 1
one_if-le true = omega arith
one_if-le false = omega arith

occurrences-add_all :
    (id : String) (seen xs : List String)
    → occurrences id (add_all seen xs) ≡ max (occurrences id seen) (min 1 (occurrences id xs))
occurrences-add_all id seen [] = omega arith
occurrences-add_all id seen (x ∷ xs) = omega (
  arith,
  occurrences-add_all id (if has_string x seen then seen else seen ++ x ∷ []) xs,
  occurrences-add id x seen,
  one_if-le (str_eq x id),
)

-- An id stands once in the set of a list where it stands in the list, else not.
pub occurrences-set_of :
    (id : String) (xs : List String) → occurrences id (set_of xs) ≡ min 1 (occurrences id xs)
occurrences-set_of id xs = omega (arith, occurrences-add_all id [] xs)
