-- ===== src/Base/Maps.antt =====
-- A map from texts as the list of its bindings, the latest first: a key's first binding counts.
use mathlib.Core.Path.{◌≡◌, refl}
use mathlib.Core.Logic.{◌≢◌, inl, inr}
use mathlib.Core.Bool.{Bool, true, false}
use mathlib.Core.Option.{Option, none, some}
use mathlib.Core.List.{List, [], ◌∷◌}
use native.Mathlib.Omega.{arith}
use majutsu.Base.Tests.{if◌then◌else◌, Bool-cases}
use majutsu.Base.Text.{Str, str_eq, str_eq_iff, str_eq_refl}

module _ {ℓ} {V : Type ℓ} where
  unfoldable pub lookup : Str → List (Str × V) → Option V
  lookup k [] = none
  lookup k ((j, v) ∷ m) = if str_eq j k then some v else lookup k m

  unfoldable pub contains_key : Str → List (Str × V) → Bool
  contains_key k [] = false
  contains_key k ((j, v) ∷ m) = if str_eq j k then true else contains_key k m

  unfoldable pub bind : Str → V → List (Str × V) → List (Str × V)
  bind k v m = (k, v) ∷ m

  lookup-bind :
      (k j : Str) (v : V) (m : List (Str × V))
      → lookup j (bind k v m) ≡ (if str_eq k j then some v else lookup j m)
  unfolding lookup bind
  lookup-bind k j v m = refl

  pub contains_key-lookup :
      (k : Str) (m : List (Str × V)) {v : V} → lookup k m ≡ some v → contains_key k m ≡ true
  unfolding lookup contains_key
  contains_key-lookup k [] h = cc
  contains_key-lookup k ((j, w) ∷ m) {v} h = ground (arith, contains_key-lookup k m {v = v})

  lookup-contains_key :
      (k : Str) (m : List (Str × V)) → contains_key k m ≡ true → (v : V) × (lookup k m ≡ some v)
  unfolding lookup contains_key
  lookup-contains_key k [] h = cc
  lookup-contains_key k ((j, w) ∷ m) h = elim (Bool-cases (str_eq j k)) [
    | inl e ↦ (w, rw e)
    | inr e ↦ let (v, e') = lookup-contains_key k m (rw e at h) in (v, rw e e')
  ]

  pub lookup-not_contains_key :
      (k : Str) (m : List (Str × V)) → contains_key k m ≡ false → lookup k m ≡ none
  unfolding lookup contains_key
  lookup-not_contains_key k [] h = refl
  lookup-not_contains_key k ((j, w) ∷ m) h = ground (arith, lookup-not_contains_key k m)

  -- A key that is bound anew leaves what another key finds.
  pub lookup-bind_ne :
      (k j : Str) (v : V) (m : List (Str × V)) → k ≢ j → lookup j (bind k v m) ≡ lookup j m
  unfolding lookup bind
  lookup-bind_ne k j v m h = ground (arith, str_eq_iff k j)

  pub lookup-bind_self : (k : Str) (v : V) (m : List (Str × V)) → lookup k (bind k v m) ≡ some v
  unfolding lookup bind
  lookup-bind_self k v m = rw (str_eq_refl k)

  pub contains_key-bind_ne :
      (k j : Str) (v : V) (m : List (Str × V))
      → k ≢ j
      → contains_key j (bind k v m) ≡ contains_key j m
  unfolding contains_key bind
  contains_key-bind_ne k j v m h = ground (arith, str_eq_iff k j)
