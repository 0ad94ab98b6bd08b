-- ===== src/Replay/Canonical.antt =====
-- `canonicalizeSerializable` and `stableJsonStringify` of src/runtime/defaults.ts.
-- An object enumerates the keys that are array indices first, by their numbers, and the others as they
-- were assigned. The loop assigns the sorted keys, so an entry is put in its place of that order.
pub mod Fixed
use Prim.Native.Char.{code}
use Prim.Native.String
use dogpile.Base.{
  ℕ, ◌+◌, ◌*◌, ◌-◌, ◌==◌, ◌&&◌, leb, ltb, Bool, true, false, Option, none, some, String, str_eq, Js,
  if◌then◌else◌,
}
use dogpile.Data.Json.{Json, Items, Fields, null, bool, num, str, arr, obj, nil, cons, end, field}

-- The number that decimal digits continue.
unfoldable pub digits_from : ℕ → String → Option ℕ
digits_from n String.[] = some n
digits_from n (String.◌∷◌ c s) =
    let rest = digits_from (n * 10 + (code c - b'0')) s in
    if leb b'0' (code c) && leb (code c) b'9' then rest else none

-- An array index is at most 2^32 - 2.
unfoldable pub index_in_range : Option ℕ → Option ℕ
index_in_range none = none
index_in_range (some n) = if ltb n 4294967295 then some n else none

-- The number of a key that is an array index: digits without a leading zero.
unfoldable pub array_index : String → Option ℕ
unfolding digits_from index_in_range
array_index String.[] = none
array_index (String.◌∷◌ c s) =
    if code c == b'0'
    then if str_eq s "" then some 0 else none
    else index_in_range (digits_from 0 (String.◌∷◌ c s))

-- The order in which the keys are enumerated that `Object.keys(input).sort()` has assigned.
unfoldable pub key_le : (String → String → Bool) → Option ℕ → Option ℕ → String → String → Bool
key_le text_le (some m) (some n) k k' = leb m n
key_le text_le (some m) none k k' = true
key_le text_le none (some n) k k' = false
key_le text_le none none k k' = text_le k k'

unfoldable pub enumerated_le : (String → String → Bool) → String → String → Bool
unfolding key_le array_index
enumerated_le text_le k k' = key_le text_le (array_index k) (array_index k') k k'

module _ {F : Type 0} ⦃js : Js F⦄ where
  unfoldable pub canonical_number : F → Json F
  canonical_number x =
      if js.is_negative_zero x then num (js.of_nat 0) else if js.is_finite x then num x else null

  -- The entry in its place among those that are assigned.
  unfoldable pub insert_field : String → Json F → Fields F → Fields F
  unfolding enumerated_le
  insert_field k v end = field k v end
  insert_field k v (field k' v' fs) =
      let rest = insert_field k v fs in
      if enumerated_le js.text_le k k' then field k v (field k' v' fs) else field k' v' rest

  unfoldable mutual
    unfolding canonical_number insert_field

    pub canonicalize_serializable : Json F → Json F
    canonicalize_serializable null = null
    canonicalize_serializable (bool b) = bool b
    canonicalize_serializable (num x) = canonical_number x
    canonicalize_serializable (str s) = str s
    canonicalize_serializable (arr xs) = arr (canonical_items xs)
    canonicalize_serializable (obj fs) = obj (canonical_fields fs)

    pub canonical_items : Items F → Items F
    canonical_items nil = nil
    canonical_items (cons x xs) = cons (canonicalize_serializable x) (canonical_items xs)

    pub canonical_fields : Fields F → Fields F
    canonical_fields end = end
    canonical_fields (field k v fs) =
        insert_field k (canonicalize_serializable v) (canonical_fields fs)

  -- `JSON.stringify` is a function of the runtime.
  unfoldable pub stable_json_stringify : (Json F → String) → Json F → String
  stable_json_stringify stringify value = stringify (canonicalize_serializable value)
