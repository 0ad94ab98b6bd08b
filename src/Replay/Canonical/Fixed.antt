-- ===== src/Replay/Canonical/Fixed.antt =====
-- What canonical values are, and that they are what canonicalization gives and leaves as it is.
use dogpile.Base.{
  ℕ, ◌≤◌, Bool, Option, none, some, arith, String, Js, HasTextOrder, ◌≡◌, refl, true, false,
  Bool-cases, inl, inr, ap, ap₂, ◌∙◌,
}
use dogpile.Data.Json.{Json, Items, Fields, null, bool, num, str, arr, obj, nil, cons, end, field}
use dogpile.Replay.Canonical.{
  array_index, key_le, enumerated_le, canonical_number, insert_field, canonicalize_serializable,
  canonical_items, canonical_fields,
}

-- A key is enumerated before another, or with it: array indices by their numbers, before all other
-- keys, and these by `sort`.
unfoldable pub Precedes : (String → String → Bool) → Option ℕ → Option ℕ → String → String → Type 0
Precedes text_le (some m) (some n) k k' = m ≤ n
Precedes text_le (some m) none k k' = Unit
Precedes text_le none (some n) k k' = ⊥
Precedes text_le none none k k' = text_le k k' ≡ true

key_le-Precedes :
    (text_le : String → String → Bool) (m n : Option ℕ) (k k' : String)
    → key_le text_le m n k k' ≡ true
    → Precedes text_le m n k k'
unfolding key_le Precedes
key_le-Precedes text_le (some m) (some n) k k' h = ground arith
key_le-Precedes text_le (some m) none k k' h = tt
key_le-Precedes text_le none (some n) k k' h = cc
key_le-Precedes text_le none none k k' h = h

Precedes-key_le :
    (text_le : String → String → Bool) (m n : Option ℕ) (k k' : String)
    → Precedes text_le m n k k'
    → key_le text_le m n k k' ≡ true
unfolding key_le Precedes
Precedes-key_le text_le (some m) (some n) k k' h = ground arith
Precedes-key_le text_le (some m) none k k' h = refl
Precedes-key_le text_le none (some n) k k' h = absurd h
Precedes-key_le text_le none none k k' h = h

module _ {F : Type 0} ⦃js : Js F⦄ where
  key_le-opposite :
      HasTextOrder js
      → (m n : Option ℕ) (k k' : String) → key_le js.text_le m n k k' ≡ false
      → Precedes js.text_le n m k' k
  unfolding key_le Precedes
  key_le-opposite laws (some m) (some n) k k' h = ground arith
  key_le-opposite laws (some m) none k k' h = cc
  key_le-opposite laws none (some n) k k' h = tt
  key_le-opposite laws none none k k' h = laws.text_le_total k k' h

  -- The first key, if there is one, is not below `k`.
  StartsAbove : String → Fields F → Type 0
  StartsAbove k end = Unit
  StartsAbove k (field k' v fs) = Precedes js.text_le (array_index k) (array_index k') k k'

  -- Numbers are finite and not -0, and keys are in the order of their enumeration, at
  -- every depth.
  unfoldable mutual
    unfolding StartsAbove

    pub IsCanonical : Json F → Type 0
    IsCanonical (num x) = (js.is_finite x ≡ true) × (js.is_negative_zero x ≡ false)
    IsCanonical (arr xs) = ItemsAreCanonical xs
    IsCanonical (obj fs) = FieldsAreCanonical fs
    IsCanonical v = Unit

    pub ItemsAreCanonical : Items F → Type 0
    ItemsAreCanonical nil = Unit
    ItemsAreCanonical (cons x xs) = IsCanonical x × ItemsAreCanonical xs

    pub FieldsAreCanonical : Fields F → Type 0
    FieldsAreCanonical end = Unit
    FieldsAreCanonical (field k v fs) = IsCanonical v × StartsAbove k fs × FieldsAreCanonical fs

  number-IsCanonical : HasTextOrder js → (x : F) → IsCanonical (canonical_number x)
  unfolding canonical_number IsCanonical
  number-IsCanonical laws x = elim (Bool-cases (js.is_negative_zero x)) [
    | inl z ↦ rw z (laws.zero_is_finite, laws.zero_is_plain)
    | inr z ↦ elim (Bool-cases (js.is_finite x)) [ inl f ↦ rw (z, f) (f, z) | inr f ↦ rw (z, f) tt ]
  ]

  number-fixed :
      (x : F) → js.is_finite x ≡ true → js.is_negative_zero x ≡ false → canonical_number x ≡ num x
  unfolding canonical_number
  number-fixed x f z = rw (z, f) refl

  insert_field-StartsAbove :
      (k' k : String) (v : Json F) (fs : Fields F)
      → Precedes js.text_le (array_index k') (array_index k) k' k
      → StartsAbove k' fs
      → StartsAbove k' (insert_field k v fs)
  unfolding insert_field StartsAbove enumerated_le
  insert_field-StartsAbove k' k v end le above = le
  insert_field-StartsAbove k' k v (field k'' v'' fs) le above =
      elim (Bool-cases (enumerated_le js.text_le k k'')) [ inl e ↦ rw e le | inr e ↦ rw e above ]

  insert_field-IsCanonical :
      HasTextOrder js
      → (k : String) (v : Json F) (fs : Fields F) → IsCanonical v
      → FieldsAreCanonical fs
      → FieldsAreCanonical (insert_field k v fs)
  unfolding insert_field IsCanonical StartsAbove enumerated_le
  insert_field-IsCanonical laws k v end c cs = (c, tt, tt)
  insert_field-IsCanonical laws k v (field k' v' fs) c (c', above, cs) =
      let rest = insert_field-IsCanonical laws k v fs c cs in
      elim (Bool-cases (enumerated_le js.text_le k k')) [
        | inl e ↦ rw e (c, key_le-Precedes _ _ _ _ _ e, (c', above, cs))
        | inr e ↦
            rw e
              (c', insert_field-StartsAbove k' k v fs (key_le-opposite laws _ _ k k' e) above, rest)
      ]

  insert_field-fixed :
      (k : String) (v : Json F) (fs : Fields F)
      → StartsAbove k fs
      → insert_field k v fs ≡ field k v fs
  unfolding insert_field StartsAbove enumerated_le
  insert_field-fixed k v end above = refl
  insert_field-fixed k v (field k' v' fs) above =
      rw (Precedes-key_le js.text_le (array_index k) (array_index k') k k' above) refl

  mutual
    unfolding canonicalize_serializable IsCanonical

    value-IsCanonical : HasTextOrder js → (v : Json F) → IsCanonical (canonicalize_serializable v)
    value-IsCanonical laws (num x) = number-IsCanonical laws x
    value-IsCanonical laws (arr xs) = items-AreCanonical laws xs
    value-IsCanonical laws (obj fs) = fields-AreCanonical laws fs
    value-IsCanonical laws v = tt

    items-AreCanonical : HasTextOrder js → (xs : Items F) → ItemsAreCanonical (canonical_items xs)
    items-AreCanonical laws nil = tt
    items-AreCanonical laws (cons x xs) = (value-IsCanonical laws x, items-AreCanonical laws xs)

    fields-AreCanonical :
        HasTextOrder js → (fs : Fields F) → FieldsAreCanonical (canonical_fields fs)
    fields-AreCanonical laws end = tt
    fields-AreCanonical laws (field k v fs) =
        insert_field-IsCanonical laws k (canonicalize_serializable v) (canonical_fields fs)
          (value-IsCanonical laws v) (fields-AreCanonical laws fs)

  mutual
    unfolding canonicalize_serializable IsCanonical

    value-fixed : (v : Json F) → IsCanonical v → canonicalize_serializable v ≡ v
    value-fixed (num x) (f, z) = number-fixed x f z
    value-fixed (arr xs) c = ap arr (items-fixed xs c)
    value-fixed (obj fs) c = ap obj (fields-fixed fs c)
    value-fixed null c = refl
    value-fixed (bool b) c = refl
    value-fixed (str s) c = refl

    items-fixed : (xs : Items F) → ItemsAreCanonical xs → canonical_items xs ≡ xs
    items-fixed nil c = refl
    items-fixed (cons x xs) (c, cs) = ap₂ cons (value-fixed x c) (items-fixed xs cs)

    fields-fixed : (fs : Fields F) → FieldsAreCanonical fs → canonical_fields fs ≡ fs
    fields-fixed end c = refl
    fields-fixed (field k v fs) (c, above, cs) =
        ap₂ (insert_field k) (value-fixed v c) (fields-fixed fs cs)
        ∙ insert_field-fixed k v fs above
