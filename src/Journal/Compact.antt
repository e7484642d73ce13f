-- ===== src/Journal/Compact.antt =====
-- What a compaction keeps.
use mathlib.Core.Path.{subst}
use majutsu.Base.{
  ℕ, suc, ◌≤◌, ◌<◌, max, ◌≡◌, refl, sym, ap, ◌∙◌, inl, inr, Bool, true, false, not, ◌&&◌, ◌||◌,
  Option, none, some, List, [], ◌∷◌, leb, if◌then◌else◌, length, filter, any, All, arith,
  Bool-cases, Option-cases,
}
use majutsu.Base.Text.{codes, str_eq, str_eq_iff}
use majutsu.Journal.{
  EventJournalRecord, is_snapshot_finish, is_pending_trigger, is_remote_journal_pending,
  snapshot_finishes, later_of, latest, last_snapshot_finish, is_pending_after,
  has_pending_journal_events, insert_time, newest_first, second, previous_snapshot_finish,
  is_before, event_removable_after_snapshot, compact_event_journal_inner,
}

-- A time one later, and zero for none.
abbrev rank : Option ℕ → ℕ
rank none = 0
rank (some t) = suc t

rank_injective : (a b : Option ℕ) → rank a ≡ rank b → a ≡ b
rank_injective none none h = refl
rank_injective none (some t) h = absurd (omega arith)
rank_injective (some t) none h = absurd (omega arith)
rank_injective (some t) (some u) h = let e : t ≡ u = omega arith in ap some e

rank-later_of : (t : ℕ) (o : Option ℕ) → rank (later_of t o) ≡ max (suc t) (rank o)
rank-later_of t none = omega arith
rank-later_of t (some u) = omega arith

rank_of : List EventJournalRecord → ℕ
rank_of records = rank (last_snapshot_finish records)

rank_of_nil : rank_of [] ≡ 0
unfolding rank_of last_snapshot_finish snapshot_finishes latest
rank_of_nil = refl

rank_of_cons :
    (e : EventJournalRecord) (records : List EventJournalRecord)
    → rank_of (e ∷ records) ≡ (
        if is_snapshot_finish e then max (suc e.observed_at) (rank_of records) else rank_of records)
unfolding rank_of last_snapshot_finish snapshot_finishes latest
rank_of_cons e records = elim (Bool-cases (is_snapshot_finish e)) [
  | inl finish ↦ rw finish (rank-later_of e.observed_at (latest (snapshot_finishes records)))
  | inr other ↦ rw other refl
]

-- What is kept has no later finish, and as late a one if no finish from `cutoff` on is dropped.
rank_of-filter :
    (keep : EventJournalRecord → Bool) (cutoff : ℕ) (records : List EventJournalRecord)
    → ((e : EventJournalRecord)
        → is_snapshot_finish e ≡ true
        → keep e ≡ false
        → e.observed_at < cutoff)
    → (rank_of (filter keep records) ≤ rank_of records)
      × (cutoff < rank_of records → rank_of (filter keep records) ≡ rank_of records)
rank_of-filter keep cutoff [] early = (omega arith, λ h. refl)
rank_of-filter keep cutoff (e ∷ records) early =
    let (bound, same) = rank_of-filter keep cutoff records early in
    let a = rank_of_cons e records in
    let b = rank_of_cons e (filter keep records) in
    let early' = early e in
    elim (Bool-cases (keep e)) [
      | inl kept ↦ rw kept (ground arith)
      | inr dropped ↦ rw dropped (ground arith)
    ]

All-insert_time :
    (m t : ℕ) (times : List ℕ)
    → t ≤ m
    → All (λ u. u ≤ m) times
    → All (λ u. u ≤ m) (insert_time t times)
unfolding insert_time
All-insert_time m t [] h all_ = (h, tt)
All-insert_time m t (u ∷ times) h all_ = ground (arith, All-insert_time m t times h all_.1)

All-newest_first :
    (m : ℕ) (times : List ℕ) → rank (latest times) ≤ suc m → All (λ u. u ≤ m) (newest_first times)
unfolding newest_first latest
All-newest_first m [] h = tt
All-newest_first m (t ∷ times) h =
    let r = rank-later_of t (latest times) in
    All-insert_time m t (newest_first times) (omega arith) (All-newest_first m times (omega arith))

second-le :
    (m : ℕ) (times : List ℕ) (t : ℕ) → All (λ u. u ≤ m) times → second times ≡ some t → t ≤ m
second-le m [] t all_ h = cc
second-le m (u ∷ []) t all_ h = cc
second-le m (u ∷ (v ∷ times)) t (first, (next, others)) h = let e : v ≡ t = cc h in omega arith

trigger_is_no_finish :
    (e : EventJournalRecord) → is_pending_trigger e ≡ true → is_snapshot_finish e ≡ false
unfolding is_pending_trigger is_snapshot_finish
trigger_is_no_finish e h = elim (Bool-cases (str_eq e.kind (codes "snapshot-finish"))) [
  | inr other ↦ other
  | inl finish ↦
      let kind = (str_eq_iff e.kind (codes "snapshot-finish")).0 finish in
      let false_ : (str_eq e.kind (codes "fs-event") || str_eq e.kind (codes "periodic-rescan"))
          ≡ false =
        rw kind (unfold str_eq in refl) in
      absurd (ground (arith, false_))
]

filter-filter :
    (p keep : EventJournalRecord → Bool) (records : List EventJournalRecord)
    → ((e : EventJournalRecord) → p e ≡ true → keep e ≡ true)
    → filter p (filter keep records) ≡ filter p records
filter-filter p keep [] h = refl
filter-filter p keep (e ∷ records) h = ground (arith, h e, filter-filter p keep records h)

any-filter :
    (p keep : EventJournalRecord → Bool) (records : List EventJournalRecord)
    → ((e : EventJournalRecord) → p e ≡ true → keep e ≡ true)
    → any p (filter keep records) ≡ any p records
any-filter p keep [] h = refl
any-filter p keep (e ∷ records) h = ground (arith, h e, any-filter p keep records h)

module _ (trust : Bool) (covered : EventJournalRecord → Bool) where
  pending_stays :
      (before : Option ℕ) (last : ℕ) (e : EventJournalRecord)
      → is_pending_after (some last) e ≡ true
      → not (event_removable_after_snapshot trust covered before (some last) e) ≡ true
  unfolding event_removable_after_snapshot is_pending_after
  pending_stays before last e h = ground (arith, trigger_is_no_finish e)

  unsynced_stays :
      (before : Option ℕ) (last : ℕ) (e : EventJournalRecord)
      → is_remote_journal_pending e ≡ true
      → not (event_removable_after_snapshot trust covered before (some last) e) ≡ true
  unfolding event_removable_after_snapshot is_remote_journal_pending
  unsynced_stays before last e h = ground (arith, trigger_is_no_finish e)

  finish_dropped :
      (before : Option ℕ) (last : ℕ) (e : EventJournalRecord)
      → is_snapshot_finish e ≡ true
      → not (event_removable_after_snapshot trust covered before (some last) e) ≡ false
      → is_before e.observed_at before ≡ true
  unfolding event_removable_after_snapshot
  finish_dropped before last e finish h = ground arith

  -- The last finish outlives the filter.
  last_stays :
      (records : List EventJournalRecord) (last : ℕ)
      → last_snapshot_finish records ≡ some last
      → last_snapshot_finish (
          filter
            (λ e. not (
              event_removable_after_snapshot trust covered
                (previous_snapshot_finish (snapshot_finishes records))
                (some last)
                e))
            records)
        ≡ some last
  unfolding rank_of previous_snapshot_finish
  last_stays records last h =
      let before = previous_snapshot_finish (snapshot_finishes records) in
      let keep : EventJournalRecord → Bool =
        λ e. not (event_removable_after_snapshot trust covered before (some last) e) in
      let top : rank (last_snapshot_finish records) ≡ suc last = rw h refl in
      let same : rank (last_snapshot_finish (filter keep records))
          ≡ rank (last_snapshot_finish records) =
        elim (Option-cases (second (newest_first (snapshot_finishes records)))) [
          | inl lone ↦
              (rank_of-filter keep 0 records (λ e finish dropped.
                  let b = finish_dropped before last e finish dropped in
                  let b' : is_before e.observed_at none ≡ true =
                    subst (λ o. is_before e.observed_at o ≡ true) lone b in
                  cc b')).1
                (omega arith)
          | inr (cutoff, two) ↦
              let low =
                second-le last (newest_first (snapshot_finishes records)) cutoff
                  (All-newest_first last (snapshot_finishes records)
                    (unfold last_snapshot_finish in omega arith))
                  two in
              (rank_of-filter keep cutoff records (λ e finish dropped.
                  let b = finish_dropped before last e finish dropped in
                  let b' : is_before e.observed_at (some cutoff) ≡ true =
                    subst (λ o. is_before e.observed_at o ≡ true) two b in
                  ground (arith, b'))).1
                (omega arith)
        ] in
      rank_injective (last_snapshot_finish (filter keep records)) (some last) (omega arith)

-- The same last finish, pending events and events to be synchronised.
abbrev pub Keeps : List EventJournalRecord → List EventJournalRecord → Type 0
Keeps records kept =
    (last_snapshot_finish kept ≡ last_snapshot_finish records)
    × (filter (is_pending_after (last_snapshot_finish kept)) kept
        ≡ filter (is_pending_after (last_snapshot_finish records)) records)
    × (filter is_remote_journal_pending kept ≡ filter is_remote_journal_pending records)
    × (has_pending_journal_events kept ≡ has_pending_journal_events records)

filtered-Keeps :
    (keep : EventJournalRecord → Bool) (records : List EventJournalRecord) (last : ℕ)
    → last_snapshot_finish records ≡ some last
    → last_snapshot_finish (filter keep records) ≡ some last
    → ((e : EventJournalRecord) → is_pending_after (some last) e ≡ true → keep e ≡ true)
    → ((e : EventJournalRecord) → is_remote_journal_pending e ≡ true → keep e ≡ true)
    → Keeps records (filter keep records)
unfolding has_pending_journal_events
filtered-Keeps keep records last found found' pending unsynced = (
  found' ∙ sym found,
  rw (found, found') (filter-filter (is_pending_after (some last)) keep records pending),
  filter-filter is_remote_journal_pending keep records unsynced,
  rw (found, found') (any-filter (is_pending_after (some last)) keep records pending),
)

-- A compaction, forced or not and in either mode, leaves the last finished snapshot, the list of events
-- that are pending behind it, and the list of events that the remote journal does not have yet, and so
-- the answer of `has_pending_journal_events`.
pub compact-Keeps :
    (trust : Bool) (covered : EventJournalRecord → Bool) (force : Bool) (min_records : ℕ)
    (records : List EventJournalRecord)
    → Keeps records (compact_event_journal_inner trust covered force min_records records)
unfolding compact_event_journal_inner
compact-Keeps trust covered force min_records records =
    elim (Bool-cases (not force && leb (length records) min_records)) [
      | inl few ↦
          let e : records ≡ compact_event_journal_inner trust covered force min_records records =
            rw few refl in
          subst (Keeps records) e (refl, refl, refl, refl)
      | inr many ↦ elim (Option-cases (last_snapshot_finish records)) [
        | inl unfinished ↦
            let e : records ≡ compact_event_journal_inner trust covered force min_records records =
              rw (many, unfinished, compact_event_journal_inner) refl in
            subst (Keeps records) e (refl, refl, refl, refl)
        | inr (last, found) ↦
            let before = previous_snapshot_finish (snapshot_finishes records) in
            let keep : EventJournalRecord → Bool =
              λ e. not (event_removable_after_snapshot trust covered before (some last) e) in
            let e : filter keep records
                ≡ compact_event_journal_inner trust covered force min_records records =
              rw (many, found, compact_event_journal_inner) refl in
            subst (Keeps records) e (
              filtered-Keeps keep records last found (last_stays trust covered records last found)
                (λ e h. pending_stays trust covered before last e h)
                (λ e h. unsynced_stays trust covered before last e h))
      ]
    ]
