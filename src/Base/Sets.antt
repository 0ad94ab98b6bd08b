-- ===== src/Base/Sets.antt =====
-- A `Set` of strings, as the list of its elements in the order of insertion.
use Prim.Native.String.{String}
use mathlib.Core.Bool.{Bool, false, ◌||◌}
use mathlib.Core.List.{List, [], ◌∷◌, ◌++◌}
use text.Mathlib.Text.{◌==◌ as str_eq}
use dogpile.Base.Tests.{if◌then◌else◌}

abbrev pub has_string : String → List String → Bool
has_string t [] = false
has_string t (x ∷ xs) = str_eq x t || has_string t xs

-- `set.add(x)` for each of `xs`.
abbrev pub add_all : List String → List String → List String
add_all seen [] = seen
add_all seen (x ∷ xs) = add_all (if has_string x seen then seen else seen ++ x ∷ []) xs

-- `new Set(xs)`.
abbrev pub set_of : List String → List String
set_of xs = add_all [] xs
