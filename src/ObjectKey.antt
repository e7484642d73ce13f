-- ===== src/ObjectKey.antt =====
-- Object keys: `validate_slash_relative_key` and `validate_local_object_key` of src/util.rs, and
-- `remote_object_key_issue` of crates/majutsu-db/src/lib.rs. Paths are Unix paths: an absolute path
-- starts with a slash, and behind the checks on the parts each component is a normal one.
pub mod Tests
pub mod Agreement
use majutsu.Base.{
  ℕ, ◌≡◌, Bool, true, false, not, ◌&&◌, ◌||◌, Option, none, some, List, [], ◌∷◌, if◌then◌else◌, any,
  is_empty,
}
use majutsu.Base.Text.{Str, codes, str_eq, starts_with, ends_with, has_char, split}

abbrev pub slash : ℕ
slash = b'/'

abbrev pub backslash : ℕ
backslash = b'\\'

-- A component that is empty, `.` or `..`.
unfoldable pub is_unsafe_part : Str → Bool
is_unsafe_part part = is_empty part || str_eq part (codes ".") || str_eq part (codes "..")

pub validate_slash_relative_key : Str → Bool
validate_slash_relative_key key =
    if is_empty key
    then false
    else if has_char backslash key
    then false
    else if starts_with (slash ∷ []) key
    then false
    else not (any is_unsafe_part (split slash key))

unfoldable pub validate_local_object_key : Str → Bool
unfolding validate_slash_relative_key
validate_local_object_key key =
    if validate_slash_relative_key key then starts_with (codes "objects/") key else false

pub data RemoteObjectKeyIssue : Type 0 where
  not_relative_slash_path unsafe_component : RemoteObjectKeyIssue

remote_object_key_issue : Str → Option RemoteObjectKeyIssue
remote_object_key_issue key =
    if is_empty key
      || starts_with (slash ∷ []) key
      || ends_with (slash ∷ []) key
      || has_char backslash key
    then some not_relative_slash_path
    else if any is_unsafe_part (split slash key)
    then some unsafe_component
    else none

pub is_valid_remote_object_key : Str → Bool
unfolding remote_object_key_issue
is_valid_remote_object_key key = elim (remote_object_key_issue key) [ none ↦ true | some i ↦ false ]
