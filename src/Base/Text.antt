-- ===== src/Base/Text.antt =====
-- Text as lists of code points (bytes, where the program walks bytes). The order of UTF-8 byte
-- strings is the order of their code points, so the order below is that of Rust's `String`.
use Prim.Native.Char.{code}
use Prim.Native.String.{String}
use Prim.Native.Nat.{ℕ}
use mathlib.Core.Path.{◌≡◌, refl}
use mathlib.Core.Logic.{◌↔◌}
use mathlib.Core.Bool.{Bool, true, false, ◌&&◌, ◌||◌}
use mathlib.Core.Option.{Option, none, some}
use mathlib.Core.List.{List, [], ◌∷◌, ◌++◌, reverse}
use native.Mathlib.Omega.{arith}
use majutsu.Base.Tests.{ltb, leb, ◌==◌, if◌then◌else◌}

abbrev pub Str : Type 0
Str = List ℕ

abbrev pub codes : String → Str
codes String.[] = []
codes (String.◌∷◌ c s) = code c ∷ codes s

unfoldable pub str_eq : Str → Str → Bool
str_eq [] [] = true
str_eq [] (y ∷ ys) = false
str_eq (x ∷ xs) [] = false
str_eq (x ∷ xs) (y ∷ ys) = x == y && str_eq xs ys

pub str_eq_iff : (a b : Str) → (str_eq a b ≡ true) ↔ (a ≡ b)
unfolding str_eq
str_eq_iff [] [] = ground arith
str_eq_iff [] (y ∷ ys) = ground arith
str_eq_iff (x ∷ xs) [] = ground arith
str_eq_iff (x ∷ xs) (y ∷ ys) = ground (arith, str_eq_iff xs ys)

pub str_eq_refl : (a : Str) → str_eq a a ≡ true
str_eq_refl a = (str_eq_iff a a).1 refl

-- The lexicographic order.
unfoldable pub str_lt : Str → Str → Bool
str_lt [] [] = false
str_lt [] (y ∷ ys) = true
str_lt (x ∷ xs) [] = false
str_lt (x ∷ xs) (y ∷ ys) = ltb x y || (x == y && str_lt xs ys)

str_lt_irrefl : (a : Str) → str_lt a a ≡ false
unfolding str_lt
str_lt_irrefl [] = refl
str_lt_irrefl (x ∷ xs) = ground (arith, str_lt_irrefl xs)

pub str_lt_trans : (a b c : Str) → str_lt a b ≡ true → str_lt b c ≡ true → str_lt a c ≡ true
unfolding str_lt
str_lt_trans [] [] c p q = cc
str_lt_trans [] (y ∷ ys) [] p q = cc
str_lt_trans [] (y ∷ ys) (z ∷ zs) p q = refl
str_lt_trans (x ∷ xs) [] c p q = cc
str_lt_trans (x ∷ xs) (y ∷ ys) [] p q = cc
str_lt_trans (x ∷ xs) (y ∷ ys) (z ∷ zs) p q = ground (arith, str_lt_trans xs ys zs)

-- Two texts neither of which is before the other are equal.
pub str_lt_total : (a b : Str) → str_lt a b ≡ false → str_lt b a ≡ false → a ≡ b
unfolding str_lt
str_lt_total [] [] p q = refl
str_lt_total [] (y ∷ ys) p q = cc
str_lt_total (x ∷ xs) [] p q = cc
str_lt_total (x ∷ xs) (y ∷ ys) p q = ground (arith, str_lt_total xs ys)

-- `strip_prefix`, `starts_with`, `ends_with` and `contains` of `str`.
unfoldable pub strip_prefix : Str → Str → Option Str
strip_prefix [] s = some s
strip_prefix (p ∷ ps) [] = none
strip_prefix (p ∷ ps) (c ∷ s) = if p == c then strip_prefix ps s else none

unfoldable pub starts_with : Str → Str → Bool
starts_with [] s = true
starts_with (p ∷ ps) [] = false
starts_with (p ∷ ps) (c ∷ s) = p == c && starts_with ps s

unfoldable pub ends_with : Str → Str → Bool
unfolding starts_with
ends_with p s = starts_with (reverse p) (reverse s)

unfoldable pub has_infix : Str → Str → Bool
unfolding starts_with
has_infix p [] = starts_with p []
has_infix p (c ∷ s) = starts_with p (c ∷ s) || has_infix p s

-- `contains(ch)` for one character.
unfoldable pub has_char : ℕ → Str → Bool
has_char c [] = false
has_char c (d ∷ s) = c == d || has_char c s

pub starts_with_sound : (p s : Str) → starts_with p s ≡ true → (r : Str) × (s ≡ p ++ r)
unfolding starts_with
starts_with_sound [] s h = (s, refl)
starts_with_sound (p ∷ ps) [] h = cc
starts_with_sound (p ∷ ps) (c ∷ s) h =
    let (r, e) = starts_with_sound ps s (ground arith) in (r, ground arith)

pub strip_prefix_sound : (p s r : Str) → strip_prefix p s ≡ some r → s ≡ p ++ r
unfolding strip_prefix
strip_prefix_sound [] s r h = cc h
strip_prefix_sound (p ∷ ps) [] r h = absurd (cc h)
strip_prefix_sound (p ∷ ps) (c ∷ s) r h = ground (arith, h, strip_prefix_sound ps s r)

pub starts_with-append : (p r : Str) → starts_with p (p ++ r) ≡ true
unfolding starts_with
starts_with-append [] r = refl
starts_with-append (p ∷ ps) r = ground (arith, starts_with-append ps r)

-- `char::is_whitespace`: the code points with the property White_Space.
unfoldable pub is_whitespace : ℕ → Bool
is_whitespace c =
    (leb 9 c && leb c 13)
    || c == 32
    || c == 0x85
    || c == 0xa0
    || c == 0x1680
    || (leb 0x2000 c && leb c 0x200a)
    || c == 0x2028
    || c == 0x2029
    || c == 0x202f
    || c == 0x205f
    || c == 0x3000

unfoldable pub skip_while : (ℕ → Bool) → Str → Str
skip_while p [] = []
skip_while p (c ∷ s) = if p c then skip_while p s else c ∷ s

unfoldable pub trim_start_matches : ℕ → Str → Str
unfolding skip_while
trim_start_matches c s = skip_while (λ d. d == c) s

unfoldable pub trim_end_matches : ℕ → Str → Str
unfolding skip_while
trim_end_matches c s = reverse (skip_while (λ d. d == c) (reverse s))

unfoldable pub trim : Str → Str
unfolding skip_while is_whitespace
trim s = reverse (skip_while is_whitespace (reverse (skip_while is_whitespace s)))

unfoldable pub is_blank : Str → Bool
unfolding trim
is_blank s = elim (trim s) [ [] ↦ true | c ∷ r ↦ false ]

-- `split(ch)`: the parts between the separators, at least one.
unfoldable pub split : ℕ → Str → List Str
split sep [] = [] ∷ []
split sep (c ∷ s) = elim (split sep s) [
  | [] ↦ [] ∷ []
  | part ∷ parts ↦ if c == sep then [] ∷ (part ∷ parts) else (c ∷ part) ∷ parts
]
