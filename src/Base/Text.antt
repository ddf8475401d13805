-- ===== src/Base/Text.antt =====
-- Texts as lists of character codes: `includes`, `toLowerCase` and `trim` of JavaScript strings.
-- `toLowerCase` changes the letters A to Z only, and `trim` removes the white space of JavaScript.
use Prim.Native.Nat.{ℕ, ◌+◌}
use Prim.Native.Char.{code}
use Prim.Native.String.{String}
use mathlib.Core.Bool.{Bool, true, false, ◌&&◌, ◌||◌}
use mathlib.Core.List.{List, [], ◌∷◌, map, reverse}
use flatrent.Base.Tests.{◌==◌, leb, if◌then◌else◌}

abbrev pub codes : String → List ℕ
codes String.[] = []
codes (String.◌∷◌ c s) = code c ∷ codes s

unfoldable pub begins_with : List ℕ → List ℕ → Bool
begins_with s [] = true
begins_with [] (d ∷ t) = false
begins_with (c ∷ s) (d ∷ t) = c == d && begins_with s t

unfoldable pub includes_codes : List ℕ → List ℕ → Bool
unfolding begins_with
includes_codes [] t = begins_with [] t
includes_codes (c ∷ s) t = begins_with (c ∷ s) t || includes_codes s t

unfoldable pub includes : String → String → Bool
unfolding includes_codes
includes s t = includes_codes (codes s) (codes t)

unfoldable pub lower : ℕ → ℕ
lower c = if leb b'A' c && leb c b'Z' then c + 32 else c

unfoldable pub to_lower_case : List ℕ → List ℕ
unfolding lower
to_lower_case = map lower

-- `\s`: tab to carriage return, space, no-break space, and the separators of Unicode
unfoldable pub is_space : ℕ → Bool
is_space c =
    (leb 9 c && leb c 13)
    || c == 32
    || c == 160
    || c == 5760
    || (leb 8192 c && leb c 8202)
    || c == 8232
    || c == 8233
    || c == 8239
    || c == 8287
    || c == 12288
    || c == 65279

unfoldable pub trim_start : List ℕ → List ℕ
trim_start [] = []
trim_start (c ∷ s) = if is_space c then trim_start s else c ∷ s

unfoldable pub trim : List ℕ → List ℕ
unfolding trim_start is_space
trim s = reverse (trim_start (reverse (trim_start s)))

abbrev pub codes_eq : List ℕ → List ℕ → Bool
codes_eq [] [] = true
codes_eq (c ∷ s) (d ∷ t) = c == d && codes_eq s t
codes_eq _ _ = false

-- `!text`
abbrev pub is_empty : String → Bool
is_empty s = elim (codes s) [ [] ↦ true | c ∷ t ↦ false ]
