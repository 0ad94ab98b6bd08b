-- ===== src/Base/Text.antt =====
-- `String.prototype.trim`: white space and line terminators of ECMAScript.
use Prim.Native.Nat.{ℕ}
use Prim.Native.Char.{code}
use Prim.Native.String.{String}
use mathlib.Core.Bool.{Bool, ◌||◌, ◌&&◌}
use dogpile.Base.Tests.{leb, ◌==◌, if◌then◌else◌}

pub is_blank : ℕ → Bool
is_blank c =
    leb 9 c && leb c 13
    || c == 32
    || c == 0xa0
    || c == 0x1680
    || leb 0x2000 c && leb c 0x200a
    || c == 0x2028
    || c == 0x2029
    || c == 0x202f
    || c == 0x205f
    || c == 0x3000
    || c == 0xfeff

trim_start : String → String
trim_start String.[] = String.[]
trim_start (String.◌∷◌ c s) = if is_blank (code c) then trim_start s else String.◌∷◌ c s

reverse_onto : String → String → String
reverse_onto String.[] acc = acc
reverse_onto (String.◌∷◌ c s) acc = reverse_onto s (String.◌∷◌ c acc)

unfoldable pub trim : String → String
unfolding is_blank trim_start reverse_onto
trim s = reverse_onto (trim_start (reverse_onto (trim_start s) "")) ""
