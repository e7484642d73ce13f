-- ===== src/Branches/Commands.antt =====
-- The parts of the commands on branches that write the refs keep them consistent.
use mathlib.Core.Path.{subst}
use majutsu.Base.{
  ◌≡◌, inl, inr, refl, sym, ◌∙◌, ap, true, false, some, List, [], ◌∷◌, arith, Bool-cases,
  Option-cases, All,
}
use majutsu.Base.Text.{Str, str_eq, str_eq_iff, str_eq_refl}
use majutsu.Branches.{
  current_branch_ref, current_ref, default_branch, Database, BranchHead, branch_ref_name,
  validate_branch_name, set_ref_value, delete_ref_value, active_branch, is_active, heads_of,
  selected, ensure_default_branch, move_head, drop_branch, carry_over,
}
use majutsu.Branches.Refs.{set_ref, delete_ref}
use majutsu.Branches.Views.{
  Rows, active, current, head, active-set_active, current-set_active, head-set_active,
  active-set_current, current-set_current, head-set_current, active-set_head, current-set_head,
  head-set_head, active-delete_head, head-delete_head, active-delete_active, head-delete_active,
  IsRow, delete_ref-IsRow, lookup-IsRow,
}
use majutsu.Branches.Heads.{IsHead, heads_of-IsHead, heads_of-nil}
use majutsu.Branches.Consistent.{
  IsConsistent, IsSettled, ensured-IsConsistent, set_head-IsConsistent, pointed_head-IsConsistent,
  delete_head-IsConsistent, pointed-IsConsistent, set_active-IsRow, set_current-IsRow,
  set_head-IsRow,
}

is_active-active :
    (name : Str) (db : Database) → is_active name db ≡ true → active db.refs ≡ some name
is_active-active name db h = elim (Option-cases (active_branch db)) [
  | inl e ↦ absurd (let h' : false ≡ true = sym (rw (e, is_active)) ∙ h in cc h')
  | inr (a, e) ↦
      let h' : str_eq a name ≡ true = sym (rw (e, is_active)) ∙ h in
      let same = (str_eq_iff a name).0 h' in e ∙ ap some same
]

not_is_active-active :
    (name : Str) (db : Database)
    → is_active name db ≡ false
    → (b : Str) → active db.refs ≡ some b
    → str_eq name b ≡ false
not_is_active-active name db h b e =
    let h' : str_eq b name ≡ false = sym (rw (e, is_active)) ∙ h in
    ground (arith, h', str_eq_iff b name, str_eq_iff name b, str_eq_refl b)

module _ (db : Database) (fine : IsConsistent db.refs) (settled : IsSettled db.refs) where
  pub move_head-IsConsistent :
      (name id : Str) → validate_branch_name name ≡ true → IsConsistent (move_head name id db).refs
  unfolding move_head
  move_head-IsConsistent name id valid = elim (Bool-cases (is_active name db)) [
    | inl on ↦
        rw (on, move_head)
          (pointed_head-IsConsistent db.refs fine name id valid (is_active-active name db on))
    | inr off ↦
        rw (off, move_head)
          (set_head-IsConsistent db.refs fine name id valid settled
            (not_is_active-active name db off))
  ]

  pub drop_branch-IsConsistent : (name : Str) → IsConsistent (drop_branch name db).refs
  unfolding drop_branch
  drop_branch-IsConsistent name =
      let t = delete_ref (branch_ref_name name) db.refs in
      let rows = delete_ref-IsRow (branch_ref_name name) db.refs fine.rows in
      elim (Bool-cases (is_active name db)) [
        | inr off ↦
            rw (off, drop_branch)
              (delete_head-IsConsistent db.refs fine name settled
                (not_is_active-active name db off))
        | inl on ↦
            rw (on, drop_branch)
              (by_heads (delete_ref_value (branch_ref_name name) db) rows (heads_of t) refl)
      ]
    where
      by_heads :
          (d : Database)
          → All (IsRow d.refs) d.refs
          → (heads : List BranchHead) → heads_of d.refs ≡ heads
          → IsConsistent
              (elim heads as (λ x. Database) [
                | g ∷ rest ↦
                    set_ref_value current_ref g.snapshot_id
                      (set_ref_value current_branch_ref g.name d)
                | [] ↦ delete_ref_value current_branch_ref d
              ]).refs
      by_heads d rows [] e = record {
        rows = delete_ref-IsRow current_branch_ref d.refs rows;
        headed = λ b a. (let a' = active-delete_active d.refs in absurd (cc (a, a')));
        loose = λ a. inl (λ n. head-delete_active d.refs n ∙ heads_of-nil n d.refs e);
      }
      by_heads d rows (g ∷ rest) e =
          let t = d.refs in
          let at = (subst (All (IsHead t)) e (heads_of-IsHead t t rows)).0 in
          let u = set_ref current_branch_ref g.name t in
          pointed-IsConsistent (set_ref current_ref g.snapshot_id u) g.name g.snapshot_id
            (set_current-IsRow g.snapshot_id u (set_active-IsRow g.name t rows))
            (
              active-set_current u g.name g.snapshot_id ∙ active-set_active t g.name g.name,
              head-set_current u g.name g.snapshot_id ∙ (head-set_active t g.name g.name ∙ at.0),
              current-set_current u g.name g.snapshot_id,
            )

  pub carry_over-IsConsistent :
      (old new id : Str)
      → validate_branch_name new ≡ true
      → str_eq old new ≡ false
      → head old db.refs ≡ some id
      → IsConsistent (carry_over old new id db).refs
  unfolding carry_over
  carry_over-IsConsistent old new id valid differ h =
      let t = db.refs in
      let u = set_ref (branch_ref_name new) id t in
      let v = delete_ref (branch_ref_name old) u in
      let rows =
        delete_ref-IsRow (branch_ref_name old) u (set_head-IsRow new id t valid fine.rows) in
      let carried : head new v ≡ some id =
        head-delete_head u old new
        ∙ (rw differ (head-set_head t new id new ∙ rw (str_eq_refl new))) in
      elim (Bool-cases (is_active old db)) [
        | inl on ↦
            let w = set_ref current_branch_ref new v in
            rw (on, carry_over)
              (pointed-IsConsistent (set_ref current_ref id w) new id
                (set_current-IsRow id w (set_active-IsRow new v rows))
                (
                  active-set_current w new id ∙ active-set_active v new new,
                  head-set_current w new id ∙ (head-set_active v new new ∙ carried),
                  current-set_current w new id,
                ))
        | inr off ↦ elim (Bool-cases (is_active new db)) [
          | inl on ↦
              rw (off, on, carry_over)
                (pointed-IsConsistent (set_ref current_ref id v) new id
                  (set_current-IsRow id v rows)
                  (
                    active-set_current v new id
                        ∙ (active-delete_head u old
                            ∙ (active-set_head t new id ∙ is_active-active new db on)),
                    head-set_current v new id ∙ carried,
                    current-set_current v new id,
                  ))
          | inr off' ↦
              rw (off, off', carry_over)
                (delete_head-IsConsistent u
                  (set_head-IsConsistent t fine new id valid settled
                    (not_is_active-active new db off'))
                  old
                  (λ a. current-set_head t new id ∙ settled (sym (active-set_head t new id) ∙ a))
                  (λ b a. not_is_active-active old db off b (sym (active-set_head t new id) ∙ a)))
        ]
      ]

-- A branch that is active has a name that is valid.
pub active-valid :
    (t : Rows) → IsConsistent t → (b : Str) → active t ≡ some b → validate_branch_name b ≡ true
active-valid t fine b a =
    let (id, h, c) = fine.headed b a in
    (lookup-IsRow (IsRow t) (branch_ref_name b) id t fine.rows h).1 b refl

pub main_valid : validate_branch_name default_branch ≡ true
unfolding validate_branch_name
main_valid = refl

pub ensure_default_branch-IsConsistent :
    (db : Database)
    → IsConsistent db.refs
    → IsConsistent (ensure_default_branch db).refs × IsSettled (ensure_default_branch db).refs
unfolding ensure_default_branch
ensure_default_branch-IsConsistent db fine = by_heads (heads_of db.refs) refl
  where
    by_heads :
        (heads : List BranchHead)
        → heads_of db.refs ≡ heads
        → IsConsistent (ensure_default_branch db).refs × IsSettled (ensure_default_branch db).refs
    by_heads (g ∷ heads) e = elim (Option-cases (active db.refs)) [
      | inr (a, e') ↦ rw (e, e', ensure_default_branch) (fine, (λ gone. absurd (cc (gone, e'))))
      | inl e' ↦
          rw (e, e', ensure_default_branch)
            (
              ensured-IsConsistent db.refs fine g heads e e',
              (λ gone.
                  (let set_ =
                      active-set_active db.refs (selected (current db.refs) g heads)
                        (selected (current db.refs) g heads) in
                    absurd (cc (gone, set_)))),
            )
    ]
    by_heads [] e = elim (Option-cases (current db.refs)) [
      | inl e' ↦ rw (e, e', ensure_default_branch) (fine, (λ gone. e'))
      | inr (id, e') ↦
          let u = set_ref current_branch_ref default_branch db.refs in
          let v = set_ref (branch_ref_name default_branch) id u in
          let a : active v ≡ some default_branch =
            active-set_head u default_branch id
            ∙ active-set_active db.refs default_branch default_branch in
          rw (e, e', ensure_default_branch)
            (
              pointed-IsConsistent v default_branch id
                  (set_head-IsRow default_branch id u main_valid
                    (set_active-IsRow default_branch db.refs fine.rows))
                  (
                    a,
                    head-set_head u default_branch id default_branch
                        ∙ rw (str_eq_refl default_branch),
                    current-set_head u default_branch id
                        ∙ (current-set_active db.refs default_branch default_branch ∙ e'),
                  ),
              (λ gone. absurd (cc (gone, a))),
            )
    ]
