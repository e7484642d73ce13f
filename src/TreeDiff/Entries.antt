-- ===== src/TreeDiff/Entries.antt =====
-- The changes of the entries of two nodes, against what each path has in either.
use majutsu.Base.{
  ◌≡◌, refl, sym, ap, ◌∙◌, Bool, true, false, ◌||◌, inl, inr, Option, none, some, List, [], ◌∷◌,
  ◌++◌, if◌then◌else◌, All, arith, Bool-cases,
}
use majutsu.Base.Text.{Str, codes, str_eq, str_eq_iff, str_lt}
use majutsu.Base.Sets.{mem, mem-insert, IsSorted, insert-IsSorted}
use majutsu.Base.Maps.{lookup, contains_key, lookup-not_contains_key}
use majutsu.TreeDiff.{
  FileChange, RecordView, keys, collect, merged_keys, full_path, from_record, from_records,
  entry_change, entry_changes, append_entry_map_diff,
}

collect-IsSorted : (ks : List Str) → IsSorted (collect ks)
unfolding collect
collect-IsSorted [] = tt
collect-IsSorted (k ∷ ks) = insert-IsSorted k (collect ks) (collect-IsSorted ks)

mem-collect-keys {ℓ} :
    {V : Type ℓ} (p : Str) (from to : List (Str × V))
    → mem p (collect (keys from ++ keys to)) ≡ (contains_key p from || contains_key p to)
unfolding collect keys contains_key mem
mem-collect-keys p [] [] = refl
mem-collect-keys p [] ((k, v) ∷ to) = ground (
  arith,
  mem-insert k p (collect (keys to)),
  mem-collect-keys p [] to,
  str_eq_iff k p,
  str_eq_iff p k,
)
mem-collect-keys p ((k, v) ∷ from) to = ground (
  arith,
  mem-insert k p (collect (keys from ++ keys to)),
  mem-collect-keys p from to,
  str_eq_iff k p,
  str_eq_iff p k,
)

pub find_change : Str → List FileChange → Option FileChange
find_change path [] = none
find_change path (c ∷ changes) = if str_eq c.path path then some c else find_change path changes

str_eq-append : (p a b : Str) → str_eq (p ++ a) (p ++ b) ≡ str_eq a b
unfolding str_eq
str_eq-append [] a b = refl
str_eq-append (c ∷ p) a b = ground (arith, str_eq-append p a b)

str_lt-append : (p a b : Str) → str_lt (p ++ a) (p ++ b) ≡ str_lt a b
unfolding str_lt
str_lt-append [] a b = refl
str_lt-append (c ∷ p) a b = ground (arith, str_lt-append p a b)

abbrev pub change_status : Option FileChange → Option Str
change_status none = none
change_status (some c) = some c.status

-- The first of two answers.
abbrev first_of : Option Str → Option Str → Option Str
first_of none o = o
first_of (some s) o = some s

first_of-again : (o : Option Str) (b : Bool) → first_of o (if b then o else none) ≡ o
first_of-again none b = ground arith
first_of-again (some s) b = refl

status-append :
    (p : Str) (xs ys : List FileChange)
    → change_status (find_change p (xs ++ ys))
      ≡ first_of (change_status (find_change p xs)) (change_status (find_change p ys))
unfolding find_change
status-append p [] ys = refl
status-append p (x ∷ xs) ys = ground (arith, status-append p xs ys)

abbrev pub paths_of : List FileChange → List Str
paths_of [] = []
paths_of (c ∷ changes) = c.path ∷ paths_of changes

All-paths_of-append :
    (P : Str → Type 0) (xs ys : List FileChange)
    → All P (paths_of xs)
    → All P (paths_of ys)
    → All P (paths_of (xs ++ ys))
All-paths_of-append P [] ys h k = k
All-paths_of-append P (x ∷ xs) ys h k = (h.0, All-paths_of-append P xs ys h.1 k)

module _ {R : Type 0} (view : RecordView R) (root_id : Str) (volatile_mode : Str → Option Str) where
  abbrev full : Str → Str
  full path = full_path view root_id volatile_mode path

  -- What a path that has these records in the two nodes is reported as.
  pub expected_status : Option R → Option R → Option Str
  expected_status none none = none
  expected_status none (some r) = some (codes "A")
  expected_status (some r) none = some (codes "D")
  expected_status (some a) (some b) = if view.equals a b then none else some (codes "M")

  full-eq : (p q : Str) → str_eq (full p) (full q) ≡ str_eq p q
  full-eq p q = str_eq-append root_id _ _ ∙ str_eq-append (codes "/") p q

  full-lt : (p q : Str) → str_lt (full p) (full q) ≡ str_lt p q
  full-lt p q = str_lt-append root_id _ _ ∙ str_lt-append (codes "/") p q

  find_change-entry_change :
      (p q : Str) (a b : Option R)
      → change_status (find_change (full p) (entry_change view root_id volatile_mode q a b))
        ≡ (if str_eq q p then expected_status a b else none)
  unfolding entry_change find_change from_record from_records expected_status
  find_change-entry_change p q none none = ground arith
  find_change-entry_change p q none (some r) = ground (arith, full-eq q p)
  find_change-entry_change p q (some r) none = ground (arith, full-eq q p)
  find_change-entry_change p q (some a) (some b) = ground (arith, full-eq q p)

  find_change-entry_changes :
      (p : Str) (from to : List (Str × R)) (ps : List Str)
      → change_status (find_change (full p) (entry_changes view root_id volatile_mode from to ps))
        ≡ (if mem p ps then expected_status (lookup p from) (lookup p to) else none)
  unfolding entry_changes mem find_change
  find_change-entry_changes p from to [] = refl
  find_change-entry_changes p from to (q ∷ ps) =
      let here = entry_change view root_id volatile_mode q (lookup q from) (lookup q to) in
      let rest = entry_changes view root_id volatile_mode from to ps in
      let split = status-append (full p) here rest in
      let one = find_change-entry_change p q (lookup q from) (lookup q to) in
      let others = find_change-entry_changes p from to ps in
      elim (Bool-cases (str_eq q p)) [
        | inl same ↦
            let e : q ≡ p = (str_eq_iff q p).0 same in
            let back : str_eq p q ≡ true = (str_eq_iff p q).1 (sym e) in
            let at : change_status (find_change (full p) here)
                ≡ expected_status (lookup p from) (lookup p to) =
              one ∙ (rw same (ap (λ k. expected_status (lookup k from) (lookup k to)) e)) in
            split
            ∙ rw (at, others, back)
                (first_of-again (expected_status (lookup p from) (lookup p to)) (mem p ps))
        | inr other ↦
            let back : str_eq p q ≡ false = ground (arith, other, str_eq_iff q p, str_eq_iff p q) in
            let at : change_status (find_change (full p) here) ≡ none = one ∙ rw other in
            split ∙ rw (at, back) others
      ]

  All-entry_change :
      (P : Str → Type 0) (q : Str) (a b : Option R)
      → P (full q)
      → All P (paths_of (entry_change view root_id volatile_mode q a b))
  unfolding entry_change from_record from_records
  All-entry_change P q none none h = tt
  All-entry_change P q none (some r) h = (h, tt)
  All-entry_change P q (some r) none h = (h, tt)
  All-entry_change P q (some a) (some b) h = elim (Bool-cases (view.equals a b)) [
    | inl e ↦ rw (e, entry_change) tt
    | inr e ↦ rw (e, entry_change) (h, tt)
  ]

  All-entry_changes :
      (p : Str) (from to : List (Str × R)) (ps : List Str)
      → All (λ q. str_lt p q ≡ true) ps
      → All
          (λ q. str_lt (full p) q ≡ true)
          (paths_of (entry_changes view root_id volatile_mode from to ps))
  unfolding entry_changes
  All-entry_changes p from to [] h = tt
  All-entry_changes p from to (q ∷ ps) h =
      All-paths_of-append (λ k. str_lt (full p) k ≡ true)
        (entry_change view root_id volatile_mode q (lookup q from) (lookup q to))
        (entry_changes view root_id volatile_mode from to ps)
        (All-entry_change (λ k. str_lt (full p) k ≡ true) q (lookup q from) (lookup q to)
          (full-lt p q ∙ h.0))
        (All-entry_changes p from to ps h.1)

  entry_changes-IsSorted :
      (from to : List (Str × R)) (ps : List Str)
      → IsSorted ps
      → IsSorted (paths_of (entry_changes view root_id volatile_mode from to ps))
  unfolding entry_changes entry_change from_record from_records
  entry_changes-IsSorted from to [] h = tt
  entry_changes-IsSorted from to (q ∷ ps) h =
      before (entry_changes view root_id volatile_mode from to ps) (lookup q from) (lookup q to)
        (All-entry_changes q from to ps h.0) (entry_changes-IsSorted from to ps h.1)
    where
      before :
          (rest : List FileChange) (a b : Option R)
          → All (λ k. str_lt (full q) k ≡ true) (paths_of rest)
          → IsSorted (paths_of rest)
          → IsSorted (paths_of (entry_change view root_id volatile_mode q a b ++ rest))
      before rest none none h k = k
      before rest none (some r) h k = (h, k)
      before rest (some r) none h k = (h, k)
      before rest (some a) (some b) h k = elim (Bool-cases (view.equals a b)) [
        | inl e ↦ rw (e, entry_change) k
        | inr e ↦ rw (e, entry_change) (h, k)
      ]

  -- The comparison of the entries of two nodes is right for every path: the path is reported as added,
  -- deleted or modified as the two maps have it, and not at all when neither has it or their records are
  -- equal; and the reported paths are strictly increasing, so each is reported once.
  pub append_entry_map_diff_lem :
      (from to : List (Str × R))
      → ((p : Str)
          → change_status
              (find_change (full p) (append_entry_map_diff view root_id volatile_mode from to))
            ≡ expected_status (lookup p from) (lookup p to))
        × IsSorted (paths_of (append_entry_map_diff view root_id volatile_mode from to))
  unfolding append_entry_map_diff merged_keys expected_status
  append_entry_map_diff_lem from to = (
    (λ p.
        find_change-entry_changes p from to (collect (keys from ++ keys to))
        ∙ (elim (Bool-cases (mem p (collect (keys from ++ keys to)))) [
          | inl e ↦ rw e
          | inr e ↦
              let known = mem-collect-keys p from to in
              let a : lookup p from ≡ none =
                lookup-not_contains_key p from (ground (arith, e, known)) in
              let b : lookup p to ≡ none =
                lookup-not_contains_key p to (ground (arith, e, known)) in
              rw (e, a, b)
        ])),
    entry_changes-IsSorted from to (collect (keys from ++ keys to))
        (collect-IsSorted (keys from ++ keys to)),
  )
