-- ===== src/Branches/Consistent.antt =====
-- What the commands on branches keep of the refs.
use mathlib.Core.Path.{subst}
use majutsu.Base.{◌≡◌, ◌≢◌, ◌⊎◌, inl, inr, sym, ◌∙◌, ap, true, false, none, some, List, ◌∷◌, All}
use majutsu.Base.Text.{Str, str_eq, str_eq_iff, str_eq_refl}
use majutsu.Branches.{
  current_branch_ref, current_ref, BranchHead, branch_ref_name, validate_branch_name, heads_of,
  selected,
}
use majutsu.Branches.Refs.{set_ref, delete_ref}
use majutsu.Branches.Views.{
  Rows, active, current, head, active-set_active, current-set_active, head-set_active,
  active-set_current, current-set_current, head-set_current, active-set_head, current-set_head,
  head-set_head, active-delete_head, current-delete_head, head-delete_head, IsRow, delete_ref-IsRow,
  set_ref-IsRow,
}
use majutsu.Branches.Heads.{IsHead, heads_of-IsHead, selected-head}

abbrev IsPointed : Rows → Str → Str → Type 0
IsPointed t b id = (active t ≡ some b) × (head b t ≡ some id) × (current t ≡ some id)

-- The active branch has a head, which is the current snapshot if there is one; without an active
-- branch there are no branches or there is no current snapshot.
pub record IsConsistent (t : Rows) : Type 0 where
  pub rows : All (IsRow t) t
  pub headed :
      (b : Str)
      → active t ≡ some b
      → (id : Str) × (head b t ≡ some id) × ((current t ≡ none) ⊎ (current t ≡ some id))
  pub loose : active t ≡ none → ((n : Str) → head n t ≡ none) ⊎ (current t ≡ none)

-- As behind `ensure_default_branch`.
abbrev pub IsSettled : Rows → Type 0
IsSettled t = active t ≡ none → current t ≡ none

pub pointed-IsConsistent :
    (t : Rows) (b id : Str) → All (IsRow t) t → IsPointed t b id → IsConsistent t
pointed-IsConsistent t b id rows (a, h, c) = record {
  rows = rows;
  headed = λ b' a'. (let e : b ≡ b' = cc (a, a') in (id, ap (λ n. head n t) (sym e) ∙ h, inr c));
  loose = λ a'. absurd (cc (a, a'));
}

-- Neither `current` nor `current-branch` is the name of a branch.
not_a_head :
    (n : Str) → (current_ref ≢ branch_ref_name n) × (current_branch_ref ≢ branch_ref_name n)
unfolding str_eq
not_a_head n = (
  (λ e. (let h : false ≡ true = (str_eq_iff current_ref (branch_ref_name n)).1 e in absurd (cc h))),
  (λ e.
      (let h : false ≡ true = (str_eq_iff current_branch_ref (branch_ref_name n)).1 e in
        absurd (cc h))),
)

pub set_active-IsRow :
    (b : Str) (t : Rows)
    → All (IsRow t) t
    → All (IsRow (set_ref current_branch_ref b t)) (set_ref current_branch_ref b t)
set_active-IsRow b t h = set_ref-IsRow current_branch_ref b t (λ n e. absurd ((not_a_head n).1 e)) h

pub set_current-IsRow :
    (id : Str) (t : Rows)
    → All (IsRow t) t
    → All (IsRow (set_ref current_ref id t)) (set_ref current_ref id t)
set_current-IsRow id t h = set_ref-IsRow current_ref id t (λ n e. absurd ((not_a_head n).0 e)) h

pub set_head-IsRow :
    (n id : Str) (t : Rows)
    → validate_branch_name n ≡ true
    → All (IsRow t) t
    → All (IsRow (set_ref (branch_ref_name n) id t)) (set_ref (branch_ref_name n) id t)
set_head-IsRow n id t valid h =
    set_ref-IsRow (branch_ref_name n) id t
      (λ m e. (let e' : n ≡ m = cc e in ap validate_branch_name (sym e') ∙ valid)) h

-- Keeps every row, behind a list of writes.
module _ (t : Rows) (fine : IsConsistent t) where
  -- Both refs at a branch that has a head.
  pub switched-IsConsistent :
      (b id : Str)
      → head b t ≡ some id
      → IsConsistent (set_ref current_ref id (set_ref current_branch_ref b t))
  switched-IsConsistent b id h =
      let u = set_ref current_branch_ref b t in
      pointed-IsConsistent (set_ref current_ref id u) b id
        (set_current-IsRow id u (set_active-IsRow b t fine.rows))
        (
          active-set_current u b id ∙ active-set_active t b b,
          head-set_current u b id ∙ (head-set_active t b b ∙ h),
          current-set_current u b id,
        )

  pub ensured-IsConsistent :
      (g : BranchHead) (heads : List BranchHead)
      → heads_of t ≡ g ∷ heads
      → active t ≡ none
      → IsConsistent (set_ref current_branch_ref (selected (current t) g heads) t)
  ensured-IsConsistent g heads e a =
      let b = selected (current t) g heads in
      let (id, h) =
        selected-head t (current t) g heads
          (subst (All (IsHead t)) e (heads_of-IsHead t t fine.rows)) in
      let gone : current t ≡ none = elim (fine.loose a) [
        | inl nil ↦ absurd (let k = nil b in cc (k, h))
        | inr c ↦ c
      ] in
      record {
        rows = set_active-IsRow b t fine.rows;
        headed = λ b' a'.
            (let same : b ≡ b' =
                (let a'' : some b ≡ some b' = sym (active-set_active t b b) ∙ a' in cc a'') in
              (
                id,
                head-set_active t b' b ∙ (ap (λ n. head n t) (sym same) ∙ h),
                inl (current-set_active t b b ∙ gone),
              ));
        loose = λ a'. (let h' = active-set_active t b b in absurd (cc (a', h')));
      }

  -- A head that is set on a branch that is not the active one.
  pub set_head-IsConsistent :
      (n id : Str)
      → validate_branch_name n ≡ true
      → IsSettled t
      → ((b : Str) → active t ≡ some b → str_eq n b ≡ false)
      → IsConsistent (set_ref (branch_ref_name n) id t)
  set_head-IsConsistent n id valid settled other = record {
    rows = set_head-IsRow n id t valid fine.rows;
    headed = λ b a.
        (let a' = sym (active-set_head t n id) ∙ a in
          let (old, h, c) = fine.headed b a' in
          let c' = current-set_head t n id in
          let ne = other b a' in
          let h' : head b (set_ref (branch_ref_name n) id t) ≡ head b t =
            head-set_head t n id b ∙ rw ne in
          (old, h' ∙ h, (elim c [ inl e ↦ inl (c' ∙ e) | inr e ↦ inr (c' ∙ e) ])));
    loose = λ a. inr (current-set_head t n id ∙ settled (sym (active-set_head t n id) ∙ a));
  }

  -- One that is set with the refs at it.
  pub pointed_head-IsConsistent :
      (n id : Str)
      → validate_branch_name n ≡ true
      → active t ≡ some n
      → IsConsistent (set_ref current_ref id (set_ref (branch_ref_name n) id t))
  pointed_head-IsConsistent n id valid a =
      let u = set_ref (branch_ref_name n) id t in
      let h : head n u ≡ some id = head-set_head t n id n ∙ rw (str_eq_refl n) in
      pointed-IsConsistent (set_ref current_ref id u) n id
        (set_current-IsRow id u (set_head-IsRow n id t valid fine.rows))
        (
          active-set_current u n id ∙ (active-set_head t n id ∙ a),
          head-set_current u n id ∙ h,
          current-set_current u n id,
        )

  -- A head that is deleted on a branch that is not the active one.
  pub delete_head-IsConsistent :
      (n : Str)
      → IsSettled t
      → ((b : Str) → active t ≡ some b → str_eq n b ≡ false)
      → IsConsistent (delete_ref (branch_ref_name n) t)
  delete_head-IsConsistent n settled other = record {
    rows = delete_ref-IsRow (branch_ref_name n) t fine.rows;
    headed = λ b a.
        (let a' = sym (active-delete_head t n) ∙ a in
          let (old, h, c) = fine.headed b a' in
          let c' = current-delete_head t n in
          let ne = other b a' in
          let h' : head b (delete_ref (branch_ref_name n) t) ≡ head b t =
            head-delete_head t n b ∙ rw ne in
          (old, h' ∙ h, (elim c [ inl e ↦ inl (c' ∙ e) | inr e ↦ inr (c' ∙ e) ])));
    loose = λ a. inr (current-delete_head t n ∙ settled (sym (active-delete_head t n) ∙ a));
  }
