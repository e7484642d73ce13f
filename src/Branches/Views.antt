-- ===== src/Branches/Views.antt =====
-- What each kind of ref reads as behind a write to the table.
use mathlib.Core.Path.{subst}
use majutsu.Base.{
  inl, inr, ◌≡◌, sym, ◌∙◌, true, false, Option, none, some, List, [], ◌∷◌, if◌then◌else◌, arith,
  Bool-cases, All,
}
use majutsu.Base.Text.{Str, str_eq, str_eq_iff, str_eq_refl, str_lt}
use majutsu.Base.Maps.{lookup}
use majutsu.Branches.{current_branch_ref, current_ref, branch_ref_name, validate_branch_name}
use majutsu.Branches.Refs.{set_ref, delete_ref, insert_row, lookup-set_ref, lookup-delete_ref}

abbrev pub Rows : Type 0
Rows = List (Str × Str)

abbrev pub active : Rows → Option Str
active t = lookup current_branch_ref t

abbrev pub current : Rows → Option Str
current t = lookup current_ref t

abbrev pub head : Str → Rows → Option Str
head name t = lookup (branch_ref_name name) t

module _ (t : Rows) (name value : Str) where
  pub active-set_active : active (set_ref current_branch_ref value t) ≡ some value
  unfolding str_eq
  active-set_active = lookup-set_ref current_branch_ref current_branch_ref value t

  pub current-set_active : current (set_ref current_branch_ref value t) ≡ current t
  unfolding str_eq
  current-set_active = lookup-set_ref current_branch_ref current_ref value t

  pub head-set_active : head name (set_ref current_branch_ref value t) ≡ head name t
  unfolding str_eq
  head-set_active = lookup-set_ref current_branch_ref (branch_ref_name name) value t

  pub active-set_current : active (set_ref current_ref value t) ≡ active t
  unfolding str_eq
  active-set_current = lookup-set_ref current_ref current_branch_ref value t

  pub current-set_current : current (set_ref current_ref value t) ≡ some value
  unfolding str_eq
  current-set_current = lookup-set_ref current_ref current_ref value t

  pub head-set_current : head name (set_ref current_ref value t) ≡ head name t
  unfolding str_eq
  head-set_current = lookup-set_ref current_ref (branch_ref_name name) value t

  pub active-set_head : active (set_ref (branch_ref_name name) value t) ≡ active t
  unfolding str_eq
  active-set_head = lookup-set_ref (branch_ref_name name) current_branch_ref value t

  pub current-set_head : current (set_ref (branch_ref_name name) value t) ≡ current t
  unfolding str_eq
  current-set_head = lookup-set_ref (branch_ref_name name) current_ref value t

  pub head-set_head :
      (other : Str)
      → head other (set_ref (branch_ref_name name) value t)
        ≡ (if str_eq name other then some value else head other t)
  unfolding str_eq
  head-set_head other = lookup-set_ref (branch_ref_name name) (branch_ref_name other) value t

module _ (t : Rows) (name : Str) where
  pub active-delete_head : active (delete_ref (branch_ref_name name) t) ≡ active t
  unfolding str_eq
  active-delete_head = lookup-delete_ref (branch_ref_name name) current_branch_ref t

  pub current-delete_head : current (delete_ref (branch_ref_name name) t) ≡ current t
  unfolding str_eq
  current-delete_head = lookup-delete_ref (branch_ref_name name) current_ref t

  pub head-delete_head :
      (other : Str)
      → head other (delete_ref (branch_ref_name name) t)
        ≡ (if str_eq name other then none else head other t)
  unfolding str_eq
  head-delete_head other = lookup-delete_ref (branch_ref_name name) (branch_ref_name other) t

pub active-delete_active : (t : Rows) → active (delete_ref current_branch_ref t) ≡ none
unfolding str_eq
active-delete_active t = lookup-delete_ref current_branch_ref current_branch_ref t

pub head-delete_active :
    (t : Rows) (name : Str) → head name (delete_ref current_branch_ref t) ≡ head name t
unfolding str_eq
head-delete_active t name = lookup-delete_ref current_branch_ref (branch_ref_name name) t

-- A row says what a look at its name finds, and the name of a branch is a valid one.
abbrev pub IsRow : Rows → Str × Str → Type 0
IsRow t (k, v) =
    (lookup k t ≡ some v) × ((n : Str) → k ≡ branch_ref_name n → validate_branch_name n ≡ true)

All-insert_row :
    (P : Str × Str → Type 0) (k v : Str) (rows : Rows)
    → P (k, v)
    → All P rows
    → All P (insert_row k v rows)
unfolding insert_row
All-insert_row P k v [] p h = (p, tt)
All-insert_row P k v ((j, w) ∷ rows) p h = elim (Bool-cases (str_lt k j)) [
  | inl e ↦ rw (e, insert_row) (p, h)
  | inr e ↦ rw (e, insert_row) (h.0, All-insert_row P k v rows p h.1)
]

All-delete_ref :
    (P Q : Str × Str → Type 0) (k : Str) (rows : Rows)
    → ((r : Str × Str) → str_eq r.0 k ≡ false → P r → Q r)
    → All P rows
    → All Q (delete_ref k rows)
unfolding delete_ref
All-delete_ref P Q k [] f h = tt
All-delete_ref P Q k ((j, w) ∷ rows) f h = elim (Bool-cases (str_eq j k)) [
  | inl e ↦ rw (e, delete_ref) (All-delete_ref P Q k rows f h.1)
  | inr e ↦ rw (e, delete_ref) (f (j, w) e h.0, All-delete_ref P Q k rows f h.1)
]

pub delete_ref-IsRow :
    (k : Str) (t : Rows) → All (IsRow t) t → All (IsRow (delete_ref k t)) (delete_ref k t)
delete_ref-IsRow k t h =
    All-delete_ref (IsRow t) (IsRow (delete_ref k t)) k t
      (λ r ne p. (
        let e = lookup-delete_ref k r.0 t in
            let p' = p.0 in ground (arith, e, ne, p', str_eq_iff k r.0, str_eq_iff r.0 k),
        p.1,
      ))
      h

pub set_ref-IsRow :
    (k v : Str) (t : Rows)
    → ((n : Str) → k ≡ branch_ref_name n → validate_branch_name n ≡ true)
    → All (IsRow t) t
    → All (IsRow (set_ref k v t)) (set_ref k v t)
unfolding set_ref
set_ref-IsRow k v t valid h =
    All-insert_row (IsRow (set_ref k v t)) k v (delete_ref k t)
      ((let e = lookup-set_ref k k v t in ground (arith, e, str_eq_refl k)), valid)
      (All-delete_ref (IsRow t) (IsRow (set_ref k v t)) k t
        (λ r ne p. (
          let e = lookup-set_ref k r.0 v t in
              let p' = p.0 in ground (arith, e, ne, p', str_eq_iff k r.0, str_eq_iff r.0 k),
          p.1,
        ))
        h)

pub lookup-IsRow :
    (P : Str × Str → Type 0) (k v : Str) (rows : Rows)
    → All P rows
    → lookup k rows ≡ some v
    → P (k, v)
unfolding lookup
lookup-IsRow P k v [] h e = absurd (cc e)
lookup-IsRow P k v ((j, w) ∷ rows) h e = elim (Bool-cases (str_eq j k)) [
  | inl same ↦
      let e' : some w ≡ some v = sym (rw (same, lookup)) ∙ e in
      let e'' : j ≡ k = (str_eq_iff j k).0 same in
      let pair : (j, w) ≡ (k, v) = cc (e', e'') in subst P pair h.0
  | inr other ↦ lookup-IsRow P k v rows h.1 (sym (rw (other, lookup)) ∙ e)
]
