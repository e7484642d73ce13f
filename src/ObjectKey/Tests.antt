-- ===== src/ObjectKey/Tests.antt =====
-- Keys that are accepted and refused.
use majutsu.Base.{◌≡◌, refl, true, false}
use majutsu.Base.Text.{codes, has_char, starts_with, split, str_eq}
use majutsu.ObjectKey.{is_unsafe_part, validate_local_object_key}

plain_key : validate_local_object_key (codes "objects/packs/a.mpack") ≡ true
unfolding validate_local_object_key has_char starts_with split is_unsafe_part str_eq
plain_key = refl

climbing_key : validate_local_object_key (codes "objects/../etc") ≡ false
unfolding validate_local_object_key has_char starts_with split is_unsafe_part str_eq
climbing_key = refl
