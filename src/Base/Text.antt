-- ===== src/Base/Text.antt =====
-- Strings as lists of character codes, and literals as such lists.
use Prim.Native.Char.{code}
use Prim.Native.String.{String}
use Prim.Native.Nat.{ℕ}
use mathlib.Core.Bool.{Bool, true, false, ◌&&◌, ◌||◌}
use mathlib.Core.List.{List, [], ◌∷◌}
use mathlib.Core.Path.{◌≡◌, refl}
use native.Mathlib.Omega.{arith}
use cos.Base.Tests.{◌==◌}
use cos.Base.Tests.{leb, if◌then◌else◌}

abbrev pub Str : Type 0
Str = List ℕ

abbrev pub codes : String → Str
codes String.[] = []
codes (String.◌∷◌ c s) = code c ∷ codes s

-- Whether `isspace` of a `char` is not 0.
abbrev pub is_space : ℕ → Bool
is_space c = (leb 9 c && leb c 13) || (c == 32)

-- The characters before the first zero byte, which end a string of C.
abbrev pub up_to_zero : Str → Str
up_to_zero [] = []
up_to_zero (c ∷ cs) = if c == 0 then [] else c ∷ up_to_zero cs

-- Whether `strcmp` of two strings is 0.
abbrev pub str_eq : Str → Str → Bool
str_eq [] [] = true
str_eq [] (b ∷ bs) = false
str_eq (a ∷ as') [] = false
str_eq (a ∷ as') (b ∷ bs) = (a == b) && str_eq as' bs

pub eq-str_eq : (a b : Str) → str_eq a b ≡ true → a ≡ b
eq-str_eq [] [] h = refl
eq-str_eq [] (y ∷ b) h = cc
eq-str_eq (x ∷ a) [] h = cc
eq-str_eq (x ∷ a) (y ∷ b) h = ground (arith, eq-str_eq a b)

pub str_eq_refl : (a : Str) → str_eq a a ≡ true
str_eq_refl [] = refl
str_eq_refl (x ∷ a) = ground (arith, str_eq_refl a)
