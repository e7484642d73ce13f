-- ===== src/Base/Sets.antt =====
-- `BTreeSet<String>` as the strictly increasing list of its elements, in iteration order.
use Prim.Native.Nat.{◌+◌, ◌≤◌}
use mathlib.Core.Path.{◌≡◌, refl}
use mathlib.Core.Bool.{Bool, true, false, ◌||◌}
use mathlib.Core.List.{List, [], ◌∷◌, ◌++◌}
use native.Mathlib.Omega.{arith}
use majutsu.Base.Tests.{if◌then◌else◌}
use majutsu.Base.Lists.{length, All}
use majutsu.Base.Text.{Str, str_eq, str_eq_iff, str_lt, str_lt_trans, str_lt_total}

-- `contains`, of a set or of a vector.
unfoldable pub mem : Str → List Str → Bool
mem a [] = false
mem a (x ∷ xs) = str_eq a x || mem a xs

-- The set that `insert` leaves; `insert` itself returns `true` exactly when the value was new.
unfoldable pub insert : Str → List Str → List Str
insert a [] = a ∷ []
insert a (x ∷ xs) =
    if str_lt a x then a ∷ x ∷ xs else if str_lt x a then x ∷ insert a xs else x ∷ xs

abbrev pub IsSorted : List Str → Type 0
IsSorted [] = Unit
IsSorted (x ∷ xs) = All (λ y. str_lt x y ≡ true) xs × IsSorted xs

pub mem-insert : (a b : Str) (s : List Str) → mem b (insert a s) ≡ (str_eq b a || mem b s)
unfolding mem insert
mem-insert a b [] = refl
mem-insert a b (x ∷ xs) =
    ground (arith, mem-insert a b xs, str_lt_total a x, str_eq_iff b a, str_eq_iff b x)

mem-append : (b : Str) (s t : List Str) → mem b (s ++ t) ≡ (mem b s || mem b t)
unfolding mem
mem-append b [] t = refl
mem-append b (x ∷ s) t = ground (arith, mem-append b s t)

pub length-insert : (a : Str) (s : List Str) → length (insert a s) ≤ length s + 1
unfolding insert
length-insert a [] = omega arith
length-insert a (x ∷ xs) = ground (arith, length-insert a xs)

All-lt-weaken :
    (a b : Str) (s : List Str)
    → str_lt a b ≡ true
    → All (λ y. str_lt b y ≡ true) s
    → All (λ y. str_lt a y ≡ true) s
All-lt-weaken a b [] h k = tt
All-lt-weaken a b (x ∷ s) h k = (str_lt_trans a b x h k.0, All-lt-weaken a b s h k.1)

All-lt-insert :
    (a b : Str) (s : List Str)
    → str_lt b a ≡ true
    → All (λ y. str_lt b y ≡ true) s
    → All (λ y. str_lt b y ≡ true) (insert a s)
unfolding insert
All-lt-insert a b [] h k = (h, tt)
All-lt-insert a b (x ∷ s) h k = ground (arith, All-lt-insert a b s h k.1)

pub insert-IsSorted : (a : Str) (s : List Str) → IsSorted s → IsSorted (insert a s)
unfolding insert
insert-IsSorted a [] h = (tt, tt)
insert-IsSorted a (x ∷ xs) h =
    ground (arith, insert-IsSorted a xs h.1, All-lt-weaken a x xs, All-lt-insert a x xs)

-- A new element makes the set longer by one.
pub length-insert_new :
    (a : Str) (s : List Str) → mem a s ≡ false → length (insert a s) ≡ length s + 1
unfolding insert mem
length-insert_new a [] h = omega arith
length-insert_new a (x ∷ xs) h =
    ground (arith, length-insert_new a xs, str_lt_total a x, str_eq_iff a x)

pub length-le-insert : (a : Str) (s : List Str) → length s ≤ length (insert a s)
unfolding insert
length-le-insert a [] = omega arith
length-le-insert a (x ∷ xs) = ground (arith, length-le-insert a xs)
