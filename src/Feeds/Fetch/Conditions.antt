-- ===== src/Feeds/Fetch/Conditions.antt =====
-- feeds/fetch.go: the headers of a conditional request.
use server_validator.Prelude.{
  ◌≡◌, ◌≢◌, refl, false, not, List, [], ◌∷◌, ◌++◌, if◌then◌else◌, arith, Option, none, some,
}
use server_validator.Text.{Text, lit, is_empty, text_eq, text_eq_iff}
use server_validator.GoMap.{lookup}
use server_validator.Feeds.Fetch.{CacheMeta, conditions}

-- The value of a header that is only sent if it is not empty.
abbrev offered : Text → Option Text
offered [] = none
offered (c ∷ s) = some (c ∷ s)

-- The headers ask for an answer only if the feed is no longer the one of the meta data: they carry its
-- entity tag and its date, where it has them, and nothing else.
pub record IsConditional (m : CacheMeta) (hdr : List (Text × Text)) : Type 0 where
  pub tag : lookup (lit "If-None-Match") hdr ≡ offered m.etag
  pub date : lookup (lit "If-Modified-Since") hdr ≡ offered m.last_modified
  pub others :
      (k : Text) → k ≢ lit "If-None-Match" → k ≢ lit "If-Modified-Since" → lookup k hdr ≡ none

-- The headers of a request by the entity tag and the date.
abbrev headers_of : Text → Text → List (Text × Text)
headers_of tag date =
    (if not (is_empty tag) then (lit "If-None-Match", tag) ∷ [] else [])
    ++ (if not (is_empty date) then (lit "If-Modified-Since", date) ∷ [] else [])

headers_of-tag :
    (tag date : Text) → lookup (lit "If-None-Match") (headers_of tag date) ≡ offered tag
unfolding lookup is_empty lit text_eq
headers_of-tag [] [] = refl
headers_of-tag [] (d ∷ date) = refl
headers_of-tag (c ∷ tag) [] = refl
headers_of-tag (c ∷ tag) (d ∷ date) = refl

headers_of-date :
    (tag date : Text) → lookup (lit "If-Modified-Since") (headers_of tag date) ≡ offered date
unfolding lookup is_empty lit text_eq
headers_of-date [] [] = refl
headers_of-date [] (d ∷ date) = refl
headers_of-date (c ∷ tag) [] = refl
headers_of-date (c ∷ tag) (d ∷ date) = refl

headers_of-others :
    (k tag date : Text)
    → k ≢ lit "If-None-Match"
    → k ≢ lit "If-Modified-Since"
    → lookup k (headers_of tag date) ≡ none
unfolding lookup
headers_of-others k tag date n o =
    ground (arith, text_eq_iff k (lit "If-None-Match"), text_eq_iff k (lit "If-Modified-Since"))

pub conditions-IsConditional :
    (b : Text) (m : CacheMeta) → IsConditional m (conditions (some (b, m)) false)
unfolding conditions
conditions-IsConditional b m = record {
  tag = headers_of-tag m.etag m.last_modified;
  date = headers_of-date m.etag m.last_modified;
  others = λ k. headers_of-others k m.etag m.last_modified;
}
