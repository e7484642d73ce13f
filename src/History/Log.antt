-- ===== src/History/Log.antt =====
-- An operation without issues, and two logs without differences.
use majutsu.Base.{
  ℕ, suc, ◌≡◌, ◌↔◌, refl, ap, ◌⊎◌, inl, inr, Bool, true, false, not, ◌&&◌, some, List, [], ◌∷◌,
  ◌==◌, if◌then◌else◌, length, All, arith, Option-cases, Bool-cases,
}
use majutsu.Base.Text.{Str, codes, str_eq, str_eq_iff, is_blank}
use majutsu.History.{
  OperationLogEntry, when, flatten, failed_without_error, valid_operation_kind_label,
  valid_remote_sync_state_label, remote_sync_issues, state_label_issues, has_no_text,
  validation_checks, validation_issues, entry_mismatches, operation_log_comparison_issues,
}

flatten_empty {ℓ} : {A : Type ℓ} (xss : List (List A)) → flatten xss ≡ [] → All (λ xs. xs ≡ []) xss
flatten_empty [] h = tt
flatten_empty ([] ∷ xss) h = (refl, flatten_empty xss h)
flatten_empty ((x ∷ xs) ∷ xss) h = cc

when_empty {ℓ} : {A : Type ℓ} (b : Bool) (a : A) → when b a ≡ [] → b ≡ false
when_empty true a h = cc
when_empty false a h = refl

-- What a remote sync of the status may have for a state.
abbrev pub SyncStates : Str → Str → Type 0
SyncStates status state =
    ((state ≡ codes "queued") × (status ≡ codes "running"))
    ⊎ (((state ≡ codes "synced") × (status ≡ codes "done"))
        ⊎ ((state ≡ codes "failed") × (status ≡ codes "failed")))

remote_sync_issues_none :
    (status : Str) (state : Str)
    → remote_sync_issues status (some state) ≡ []
    → valid_remote_sync_state_label state ≡ true
    → SyncStates status state
unfolding remote_sync_issues
remote_sync_issues_none status state h valid = ground (
  arith,
  str_eq_iff state (codes "queued"),
  str_eq_iff status (codes "running"),
  str_eq_iff state (codes "synced"),
  str_eq_iff status (codes "done"),
  str_eq_iff state (codes "failed"),
  str_eq_iff status (codes "failed"),
)

failed_has_text :
    (e : OperationLogEntry)
    → when (str_eq e.status (codes "failed") && has_no_text e.error) failed_without_error ≡ []
    → e.status ≡ codes "failed"
    → (error : Str) × (e.error ≡ some error) × (is_blank error ≡ false)
unfolding has_no_text
failed_has_text e h failed =
    let h' = when_empty (str_eq e.status (codes "failed") && has_no_text e.error) _ h in
    elim (Option-cases e.error) [
      | inl silent ↦ absurd (ground (arith, str_eq_iff e.status (codes "failed")))
      | inr (error, said) ↦ (error, said, ground (arith, str_eq_iff e.status (codes "failed")))
    ]

remote_sync_has_state :
    (e : OperationLogEntry)
    → state_label_issues e.remote_sync_state ≡ []
    → (if str_eq e.kind (codes "remote-sync")
        then remote_sync_issues e.status e.remote_sync_state
        else [])
      ≡ []
    → e.kind ≡ codes "remote-sync"
    → (state : Str) × (e.remote_sync_state ≡ some state) × SyncStates e.status state
unfolding state_label_issues
remote_sync_has_state e h g sync =
    let yes = (str_eq_iff e.kind (codes "remote-sync")).1 sync in
    let g' : remote_sync_issues e.status e.remote_sync_state ≡ [] = ground arith in
    elim (Option-cases e.remote_sync_state) [
      | inl missing ↦ absurd (unfold remote_sync_issues in ground arith)
      | inr (state, is) ↦
          let valid : valid_remote_sync_state_label state ≡ true = ground arith in
          let g'' : remote_sync_issues e.status (some state) ≡ [] = ground arith in
          (state, is, remote_sync_issues_none e.status state g'' valid)
    ]

-- An operation without issues has a known kind, an actor and a timestamp that parses; a failed one
-- says why; and a remote sync has a state, which fits its status: queued while it is running, synced
-- when it is done, failed when it failed.
pub validation_issues_none :
    (is_rfc3339 : Str → Bool) (e : OperationLogEntry)
    → validation_issues is_rfc3339 e ≡ []
    → (valid_operation_kind_label e.kind ≡ true)
      × (is_blank e.actor ≡ false)
      × (is_rfc3339 e.created_at ≡ true)
      × (e.status ≡ codes "failed"
          → (error : Str) × (e.error ≡ some error) × (is_blank error ≡ false))
      × (e.kind ≡ codes "remote-sync"
          → (state : Str) × (e.remote_sync_state ≡ some state) × SyncStates e.status state)
unfolding validation_issues validation_checks
validation_issues_none is_rfc3339 e h =
    let (a, (b, (c, (d, (f, (g, (i, (j, k)))))))) =
      flatten_empty (validation_checks is_rfc3339 e) h in
    let b' = when_empty (not (valid_operation_kind_label e.kind)) _ b in
    let j' = when_empty (not (is_rfc3339 e.created_at)) _ j in
    (
      ground arith,
      when_empty (is_blank e.actor) _ i,
      ground arith,
      failed_has_text e f,
      remote_sync_has_state e d g,
    )

entry_mismatches_none {ℓ} :
    {E : Type ℓ} (matches : E → E → Bool) (id : E → Str) (index : ℕ) (actual expected : List E)
    → ((a b : E) → (matches a b ≡ true) ↔ (a ≡ b))
    → length actual ≡ length expected
    → (entry_mismatches matches id index actual expected ≡ []) ↔ (actual ≡ expected)
unfolding entry_mismatches
entry_mismatches_none matches id index [] [] lawful same = ground arith
entry_mismatches_none matches id index [] (e ∷ expected) lawful same = absurd (omega arith)
entry_mismatches_none matches id index (a ∷ actual) [] lawful same = absurd (omega arith)
entry_mismatches_none matches id index (a ∷ actual) (e ∷ expected) lawful same =
    let rest = entry_mismatches_none matches id (suc index) actual expected lawful (omega arith) in
    let law = lawful a e in ground arith

-- The comparison reports nothing exactly when the logs are equal. Condition: the comparison of two
-- entries is their equality, as derived.
pub operation_log_comparison_issues_none {ℓ} :
    {E : Type ℓ} (matches : E → E → Bool) (id : E → Str) (actual expected : List E)
    → ((a b : E) → (matches a b ≡ true) ↔ (a ≡ b))
    → (operation_log_comparison_issues matches id actual expected ≡ []) ↔ (actual ≡ expected)
unfolding operation_log_comparison_issues
operation_log_comparison_issues_none matches id actual expected lawful =
    elim (Bool-cases (length actual == length expected)) [
      | inl same ↦
          let e : length actual ≡ length expected = ground arith in
          rw same (entry_mismatches_none matches id 0 actual expected lawful e)
      | inr other ↦ rw other ((λ h. cc), λ e. let e' = ap length e in absurd (ground arith))
    ]
