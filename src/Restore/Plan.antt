-- ===== src/Restore/Plan.antt =====
-- What a plan says of the objects and of the files.
use majutsu.Base.{
  ℕ, suc, ◌+◌, ◌≡◌, refl, ◌∙◌, inl, inr, Bool, not, ◌&&◌, some, List, [], ◌∷◌, length, filter,
  arith, Bool-cases,
}
use majutsu.Base.Text.{Str}
use majutsu.Restore.{
  RestoreObjectAvailability, classify, classify_restore_object_availability, RestorePathState,
  missing, matches, differs, RestoreChangeStats, count_file, count_all, count_restore_changes,
}

classify_filters :
    (local remote : Str → Bool) (keys : List Str)
    → classify (λ key. some (local key)) (λ key. some (remote key)) keys
      ≡ some (
        filter (λ key. not (local key) && remote key) keys,
        filter (λ key. not (local key) && not (remote key)) keys,
      )
unfolding classify
classify_filters local remote [] = refl
classify_filters local remote (key ∷ keys) =
    let ih = classify_filters local remote keys in
    elim (Bool-cases (local key)) [
      | inl here ↦ rw (here, classify) ih
      | inr away ↦ elim (Bool-cases (remote key)) [
        | inl there ↦ rw (away, ih, there, classify)
        | inr nowhere ↦ rw (away, ih, nowhere, classify)
      ]
    ]

three_way :
    (local remote : Str → Bool) (keys : List Str)
    → length (filter (λ key. not (local key) && remote key) keys)
        + length (filter (λ key. not (local key) && not (remote key)) keys)
        + length (filter local keys)
      ≡ length keys
three_way local remote [] = omega arith
three_way local remote (key ∷ keys) = ground (arith, three_way local remote keys)

count_file_lem :
    (state : RestorePathState) (stats : RestoreChangeStats)
    → let after = count_file state stats in
      (after.restore_files + after.modify_files + after.keep_files
        ≡ suc (stats.restore_files + stats.modify_files + stats.keep_files))
      × (after.delete_files ≡ stats.delete_files)
unfolding count_file
count_file_lem missing stats = (omega arith, refl)
count_file_lem matches stats = (omega arith, refl)
count_file_lem differs stats = (omega arith, refl)

-- Where no test fails, every required object that is not here is exactly one of archived and missing, in
-- the order of the required objects: archived if the remote has it and missing if it has not.
pub classify_restore_object_availability_splits :
    (local remote : Str → Bool) (required : List Str)
    → (a : RestoreObjectAvailability) × (classify_restore_object_availability
          (λ key. some (local key))
          (λ key. some (remote key))
          required
        ≡ some a)
      × (a.required_objects ≡ required)
      × (a.archived_objects ≡ filter (λ key. not (local key) && remote key) required)
      × (a.missing_objects ≡ filter (λ key. not (local key) && not (remote key)) required)
      × (length a.archived_objects + length a.missing_objects + length (filter local required)
          ≡ length required)
unfolding classify_restore_object_availability
classify_restore_object_availability_splits local remote required =
    let archived = filter (λ key. not (local key) && remote key) required in
    let missing_ = filter (λ key. not (local key) && not (remote key)) required in
    let a : RestoreObjectAvailability = record {
      required_objects = required;
      archived_objects = archived;
      missing_objects = missing_;
    } in
    (
      a,
      rw (classify_filters local remote required, classify_restore_object_availability),
      refl,
      refl,
      refl,
      three_way local remote required,
    )

count_all_lem :
    {F : Type 0} (classify_file : F → RestorePathState) (files : List F)
    (stats : RestoreChangeStats)
    → (after : RestoreChangeStats) × (count_all (λ file. some (classify_file file)) files stats
        ≡ some after)
      × (after.restore_files + after.modify_files + after.keep_files
          ≡ stats.restore_files + stats.modify_files + stats.keep_files + length files)
      × (after.delete_files ≡ stats.delete_files)
unfolding count_all count_file
count_all_lem classify_file [] stats = (stats, refl, omega arith, refl)
count_all_lem classify_file (file ∷ files) stats =
    let (after, e, total, deletes) =
      count_all_lem classify_file files (count_file (classify_file file) stats) in
    let (total', deletes') = count_file_lem (classify_file file) stats in
    (after, e, omega arith, deletes ∙ deletes')

-- Every file is counted once, as restored, modified or kept, and the deletions as given.
pub count_restore_changes_total :
    {F : Type 0} (files : List F) (delete_count : ℕ) (classify_file : F → RestorePathState)
    → (stats : RestoreChangeStats) × (count_restore_changes files delete_count
          (λ file. some (classify_file file))
        ≡ some stats)
      × (stats.restore_files + stats.modify_files + stats.keep_files ≡ length files)
      × (stats.delete_files ≡ delete_count)
unfolding count_restore_changes
count_restore_changes_total files delete_count classify_file =
    let (stats, e, total, deletes) = count_all_lem classify_file files (record {
      restore_files = 0;
      modify_files = 0;
      keep_files = 0;
      delete_files = delete_count;
    }) in
    (stats, e, omega arith, deletes)
