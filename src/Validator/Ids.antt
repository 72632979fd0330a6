-- ===== src/Validator/Ids.antt =====
-- validator/idnorm.go: OBA ids, which carry the agency's id and an underscore in front.
pub mod Matching
use server_validator.Prelude.{
  ℕ, Bool, true, false, not, ◌&&◌, ◌||◌, List, [], ◌∷◌, ◌++◌, Option, none, some, if◌then◌else◌,
}
use server_validator.Text.{Text, lit, text_eq, is_empty}
use server_validator.Text.Search.{after_byte}

abbrev pub underscore : ℕ
underscore = b'_'

unfoldable pub raw_id : Text → Text
raw_id api_id = elim (after_byte underscore api_id) [ some rest ↦ rest | none ↦ api_id ]

unfoldable pub prefixed_id : Text → Text → Text
unfolding is_empty
prefixed_id agency_id raw = if is_empty agency_id then raw else agency_id ++ underscore ∷ raw

unfoldable pub id_match : Text → Text → Text → Bool
id_match api_id raw_feed_id agency_id =
    if text_eq api_id raw_feed_id
    then true
    else if text_eq (raw_id api_id) raw_feed_id
    then true
    else not (is_empty agency_id) && text_eq api_id (prefixed_id agency_id raw_feed_id)
