-- ===== src/Branches/Refs.antt =====
-- The table `refs`: rows in the order of their names, which are its primary key.
use majutsu.Base.{◌≡◌, none, some, List, [], ◌∷◌, if◌then◌else◌, arith}
use majutsu.Base.Text.{Str, str_eq, str_eq_iff, str_eq_refl, str_lt}
use majutsu.Base.Maps.{lookup}

-- `delete from refs where name=?`.
unfoldable pub delete_ref : Str → List (Str × Str) → List (Str × Str)
delete_ref k [] = []
delete_ref k ((j, v) ∷ rows) = if str_eq j k then delete_ref k rows else (j, v) ∷ delete_ref k rows

unfoldable pub insert_row : Str → Str → List (Str × Str) → List (Str × Str)
insert_row k v [] = (k, v) ∷ []
insert_row k v ((j, w) ∷ rows) =
    if str_lt k j then (k, v) ∷ ((j, w) ∷ rows) else (j, w) ∷ insert_row k v rows

-- `insert into refs ... on conflict(name) do update`.
unfoldable pub set_ref : Str → Str → List (Str × Str) → List (Str × Str)
set_ref k v rows = insert_row k v (delete_ref k rows)

pub lookup-delete_ref :
    (k j : Str) (rows : List (Str × Str))
    → lookup j (delete_ref k rows) ≡ (if str_eq k j then none else lookup j rows)
unfolding lookup delete_ref
lookup-delete_ref k j [] = ground arith
lookup-delete_ref k j ((i, v) ∷ rows) =
    ground (arith, lookup-delete_ref k j rows, str_eq_iff i k, str_eq_iff i j, str_eq_iff k j)

lookup-insert_row :
    (k j v : Str) (rows : List (Str × Str))
    → lookup k rows ≡ none
    → lookup j (insert_row k v rows) ≡ (if str_eq k j then some v else lookup j rows)
unfolding lookup insert_row
lookup-insert_row k j v [] h = ground arith
lookup-insert_row k j v ((i, w) ∷ rows) h =
    ground (arith, lookup-insert_row k j v rows, str_eq_iff i k, str_eq_iff i j, str_eq_iff k j)

pub lookup-set_ref :
    (k j v : Str) (rows : List (Str × Str))
    → lookup j (set_ref k v rows) ≡ (if str_eq k j then some v else lookup j rows)
unfolding set_ref
lookup-set_ref k j v rows = ground (
  arith,
  lookup-insert_row k j v (delete_ref k rows),
  lookup-delete_ref k j rows,
  lookup-delete_ref k k rows,
  str_eq_refl k,
)
