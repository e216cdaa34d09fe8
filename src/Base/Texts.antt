-- ===== src/Base/Texts.antt =====
-- JavaScript strings as lists of UTF-16 code units, with the string methods that the source calls.
use Prim.Native.Nat.{ℕ, zero, suc, ◌+◌, ◌-◌, ◌/◌, ◌%◌}
use Prim.Native.Char.{code}
use Prim.Native.String.{String}
use mathlib.Core.Path.{◌≡◌, refl}
use mathlib.Core.Logic.{◌↔◌}
use mathlib.Core.Bool.{Bool, true, false, ◌&&◌, ◌||◌}
use mathlib.Core.List.{List, [], ◌∷◌, ◌++◌, reverse}
use mathlib.Core.Option.{Option, none, some}
use native.Mathlib.Omega.{arith}
use cdk_system.Base.Tests.{leb, ltb, ◌==◌, if◌then◌else◌}
use cdk_system.Base.Lists.{length, drop, replicate}

abbrev pub Text : Type 0
Text = List ℕ

-- A string literal of the source; every character of its literals is one code unit.
unfoldable pub text : String → Text
text String.[] = []
text (String.◌∷◌ c s) = code c ∷ text s

-- `a === b` on strings.
unfoldable pub text_eq : Text → Text → Bool
text_eq [] [] = true
text_eq [] (_ ∷ _) = false
text_eq (_ ∷ _) [] = false
text_eq (c ∷ s) (d ∷ t) = (c == d) && text_eq s t

pub text_eq_iff : (s t : Text) → (text_eq s t ≡ true) ↔ (s ≡ t)
unfolding text_eq
text_eq_iff [] [] = (λ _. refl, λ _. refl)
text_eq_iff [] (d ∷ t) = ground arith
text_eq_iff (c ∷ s) [] = ground arith
text_eq_iff (c ∷ s) (d ∷ t) = ground (arith, text_eq_iff s t)

pub text_eq_refl : (s : Text) → text_eq s s ≡ true
text_eq_refl s = (text_eq_iff s s).1 refl

-- `!s`: the empty string is falsy.
abbrev pub is_empty {ℓ} : {A : Type ℓ} → List A → Bool
is_empty [] = true
is_empty (_ ∷ _) = false

-- `s || t` on strings.
abbrev pub text_or : Text → Text → Text
text_or [] t = t
text_or (c ∷ s) t = c ∷ s

-- `!!s` of a nullable string.
abbrev pub is_given : Option Text → Bool
is_given none = false
is_given (some []) = false
is_given (some (c ∷ s)) = true

-- White space and line terminators, as `trim` and `\s` read them.
unfoldable pub is_space : ℕ → Bool
is_space c =
    (leb 9 c && leb c 13)
    || (c == 32)
    || (c == 0xa0)
    || (c == 0x1680)
    || (leb 0x2000 c && leb c 0x200a)
    || (c == 0x2028)
    || (c == 0x2029)
    || (c == 0x202f)
    || (c == 0x205f)
    || (c == 0x3000)
    || (c == 0xfeff)

unfoldable pub trim_start : Text → Text
trim_start [] = []
trim_start (c ∷ s) = let rest = trim_start s in if is_space c then rest else c ∷ s

unfoldable pub trim : Text → Text
trim s = reverse (trim_start (reverse (trim_start s)))

-- `Array.from(value).length`: the code points, where a surrogate pair counts once.
unfoldable pub code_points : Text → ℕ
code_points [] = 0
code_points (c ∷ []) = 1
code_points (c ∷ d ∷ s) =
    let behind_pair = code_points s in
    let behind_unit = code_points (d ∷ s) in
    1
    + (if leb 0xd800 c && (ltb c 0xdc00 && (leb 0xdc00 d && ltb d 0xe000))
        then behind_pair
        else behind_unit)

-- `join`.
unfoldable pub join : Text → List Text → Text
join sep [] = []
join sep (s ∷ []) = s
join sep (s ∷ t ∷ rest) = s ++ (sep ++ join sep (t ∷ rest))

-- `startsWith` and `endsWith`.
unfoldable pub starts_with : Text → Text → Bool
starts_with s [] = true
starts_with [] (_ ∷ _) = false
starts_with (c ∷ s) (d ∷ t) = (c == d) && starts_with s t

pub starts_with-append : (s w : Text) → starts_with s w ≡ true → w ++ drop (length w) s ≡ s
unfolding starts_with
starts_with-append s [] h = refl
starts_with-append [] (d ∷ w) h = cc
starts_with-append (c ∷ s) (d ∷ w) h = ground (arith, starts_with-append s w)

pub starts_with-prefix : (s t u : Text) → starts_with s t ≡ false → starts_with s (t ++ u) ≡ false
unfolding starts_with
starts_with-prefix s [] u h = cc
starts_with-prefix [] (d ∷ t) u h = refl
starts_with-prefix (c ∷ s) (d ∷ t) u h = ground (arith, starts_with-prefix s t u)

unfoldable pub ends_with : Text → Text → Bool
ends_with s t = starts_with (reverse s) (reverse t)

-- `toLowerCase` and `toUpperCase` on ASCII letters; other code units stay.
unfoldable pub lower : ℕ → ℕ
lower c = if leb b'A' c && leb c b'Z' then c + 32 else c

unfoldable pub upper : ℕ → ℕ
upper c = if leb b'a' c && leb c b'z' then c - 32 else c

-- `padStart` with one filling character.
unfoldable pub pad_start : ℕ → ℕ → Text → Text
pad_start width fill s = replicate (width - length s) fill ++ s

-- `String(n)` of a natural number. The fuel is the number itself, which bounds its digits.
unfoldable pub digits_from : ℕ → ℕ → Text → Text
digits_from zero n acc = (b'0' + n % 10) ∷ acc
digits_from (suc f) n acc =
    let more = digits_from f (n / 10) ((b'0' + n % 10) ∷ acc) in
    if n / 10 == 0 then (b'0' + n % 10) ∷ acc else more

unfoldable pub decimal : ℕ → Text
unfolding digits_from
decimal n = digits_from n n []

-- The letters and digits that `[a-zA-Z0-9]` matches.
unfoldable pub is_alnum : ℕ → Bool
is_alnum c = (leb b'a' c && leb c b'z') || (leb b'A' c && leb c b'Z') || (leb b'0' c && leb c b'9')
