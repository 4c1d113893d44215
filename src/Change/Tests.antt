-- ===== src/Change/Tests.antt =====
-- A recorded change, and the theorem at it.
use forge_ops_tracker_cpp.Prelude.{
  ◌≡◌, refl, true, [], ◌∷◌, any, none, some, Bytes, codes, bytes_eq,
}
use forge_ops_tracker_cpp.Scan.{trim}
use forge_ops_tracker_cpp.Change.{
  Change, ChangeOptions, change_kinds, normalize_kind, utf8_prefix, build_change,
}
use forge_ops_tracker_cpp.Change.Titles.{CutAt, build_change_sound}

abbrev no_options : ChangeOptions
no_options = record {
  service = none;
  environment = none;
  actor = none;
  url = none;
  id = some (codes "7");
  occurred_at = none;
}

abbrev renamed : Change Bytes
renamed = record {
  kind = codes "other";
  title = codes "new flag";
  environment = codes "staging";
  occurred_at = codes "now";
  details = none;
  service = none;
  actor = none;
  url = none;
  id = some (codes "7");
}

-- The second character has two bytes.
two_characters : utf8_prefix 2 (b'a' ∷ 195 ∷ 164 ∷ b'b' ∷ []) ≡ b'a' ∷ 195 ∷ 164 ∷ []
unfolding utf8_prefix
two_characters = refl

renamed-build :
    build_change
      (λ j. any (λ c. true) j)
      (codes "staging")
      (codes "now")
      (codes "flag")
      (codes " new flag\n")
      []
      no_options
    ≡ some renamed
unfolding build_change normalize_kind utf8_prefix trim bytes_eq
renamed-build = refl

build_change_sound_example :
    (any (bytes_eq renamed.kind) change_kinds ≡ true)
    × ((rest : Bytes) × CutAt 200 (trim (codes " new flag\n")) renamed.title rest)
build_change_sound_example =
    build_change_sound (λ j. any (λ c. true) j) (codes "staging") (codes "now") (codes "flag")
      (codes " new flag\n") [] no_options renamed-build
