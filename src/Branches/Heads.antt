-- ===== src/Branches/Heads.antt =====
-- The list of the branches, against what a look at a name finds.
use mathlib.Core.Path.{subst}
use majutsu.Base.{
  ◌≡◌, inl, inr, refl, sym, ◌∙◌, ap, true, Option, none, some, List, [], ◌∷◌, ◌++◌, arith,
  Bool-cases, Option-cases, All,
}
use majutsu.Base.Text.{Str, str_eq, str_eq_iff, strip_prefix, strip_prefix_sound}
use majutsu.Base.Maps.{lookup}
use majutsu.Branches.{
  branch_ref_name, branch_ref_prefix, BranchHead, heads_of, find_head, selected,
  validate_branch_name,
}
use majutsu.Branches.Views.{Rows, head, IsRow}

strip_prefix-append : (p r : Str) → strip_prefix p (p ++ r) ≡ some r
unfolding strip_prefix
strip_prefix-append [] r = refl
strip_prefix-append (p ∷ ps) r = ground (arith, strip_prefix-append ps r)

-- A listed branch is found by its name, which is valid.
abbrev pub IsHead : Rows → BranchHead → Type 0
IsHead t h = (head h.name t ≡ some h.snapshot_id) × (validate_branch_name h.name ≡ true)

pub heads_of-IsHead : (t rows : Rows) → All (IsRow t) rows → All (IsHead t) (heads_of rows)
unfolding heads_of
heads_of-IsHead t [] h = tt
heads_of-IsHead t ((name, value) ∷ rows) h =
    elim (Option-cases (strip_prefix branch_ref_prefix name)) [
      | inl e ↦ rw (e, heads_of) (heads_of-IsHead t rows h.1)
      | inr (branch, e) ↦
          let named = strip_prefix_sound branch_ref_prefix name branch e in
          rw (e, heads_of)
            (
              (ap (λ k. lookup k t) (sym named) ∙ h.0.0, h.0.1 branch named),
              heads_of-IsHead t rows h.1,
            )
    ]

pub heads_of-nil : (n : Str) (rows : Rows) → heads_of rows ≡ [] → head n rows ≡ none
unfolding heads_of lookup
heads_of-nil n [] h = refl
heads_of-nil n ((name, value) ∷ rows) h =
    elim (Option-cases (strip_prefix branch_ref_prefix name)) [
      | inr (branch, e) ↦
          let h' : (record { name = branch; snapshot_id = value } ∷ heads_of rows) ≡ [] =
            sym (rw (e, heads_of)) ∙ h in
          absurd (cc h')
      | inl e ↦
          let h' : heads_of rows ≡ [] = sym (rw (e, heads_of)) ∙ h in
          elim (Bool-cases (str_eq name (branch_ref_name n))) [
            | inl same ↦
                let named = (str_eq_iff name (branch_ref_name n)).0 same in
                let found = strip_prefix-append branch_ref_prefix n in absurd (cc (e, named, found))
            | inr other ↦ rw (other, lookup) (heads_of-nil n rows h')
          ]
    ]

find_head-IsHead :
    (t : Rows) (id : Str) (heads : List BranchHead) (h : BranchHead)
    → All (IsHead t) heads
    → find_head id heads ≡ some h
    → IsHead t h × (h.snapshot_id ≡ id)
unfolding find_head
find_head-IsHead t id [] h all_ e = absurd (cc e)
find_head-IsHead t id (g ∷ heads) h all_ e = elim (Bool-cases (str_eq g.snapshot_id id)) [
  | inl same ↦
      let e' : some g ≡ some h = sym (rw (same, find_head)) ∙ e in
      let e'' : g ≡ h = cc e' in
      subst (λ k. IsHead t k × (k.snapshot_id ≡ id)) e''
        (all_.0, (str_eq_iff g.snapshot_id id).0 same)
  | inr other ↦ find_head-IsHead t id heads h all_.1 (sym (rw (other, find_head)) ∙ e)
]

-- The branch that becomes active has a head.
pub selected-head :
    (t : Rows) (current : Option Str) (g : BranchHead) (heads : List BranchHead)
    → All (IsHead t) (g ∷ heads)
    → (id : Str) × (head (selected current g heads) t ≡ some id)
unfolding selected
selected-head t none g heads h = (g.snapshot_id, h.0.0)
selected-head t (some id) g heads h = elim (Option-cases (find_head id (g ∷ heads))) [
  | inl e ↦ rw (e, selected) (g.snapshot_id, h.0.0)
  | inr (found, e) ↦
      let at = find_head-IsHead t id (g ∷ heads) found h e in
      rw (e, selected) (found.snapshot_id, at.0.0)
]
