-- ===== src/Sink/Dsn.antt =====
-- sink/dsn.go: `normalizeDSN`. Parsing and printing of URLs are those of `net/url`.
pub mod Defaults
use server_validator.Prelude.{
  ◌≡◌, ◌≢◌, ◌⊎◌, inl, inr, refl, ap, Bool, true, false, ◌||◌, List, [], ◌∷◌, ◌++◌, arith, Option,
  none, some, length, drop, if◌then◌else◌,
}
use server_validator.Text.{Text, lit, text_eq, text_eq_iff, is_empty, is_empty-false}
use server_validator.Text.Search.{starts_with}
use server_validator.GoMap.{GoMap, lookup, insert, lookup-insert}
use server_validator.Sink.{SinkConfig, is_blank}

-- `url.Values`
abbrev pub Query : Type 0
Query = GoMap (List Text)

-- The fields of `*url.URL` that the source reads and writes, and what it leaves as it was.
pub record Url : Type 0 where
  pub scheme : Text
  pub host : Text
  pub user : Option (Text × Text)
  pub raw_query : Text
  pub others : List Text

-- A result and an error of Go, of which one is present.
pub data Result {ℓ} (A : Type ℓ) : Type ℓ where
  ok : A → Result A
  err : Text → Result A

pub Result-cases {ℓ} :
    {A : Type ℓ} (r : Result A) → ((e : Text) × (r ≡ err e)) ⊎ ((a : A) × (r ≡ ok a))
Result-cases (ok a) = inr (a, refl)
Result-cases (err e) = inl (e, refl)

-- `url.Parse`, `u.String()`, `u.Query()` and `q.Encode()`.
pub record UrlLib : Type 0 where
  pub parse : Text → Result Url
  pub to_string : Url → Text
  pub parse_query : Text → Query
  pub encode : Query → Text

-- `q.Get(k)`: the first value of the key, or "".
unfoldable pub get : Query → Text → Text
get q k = elim (lookup k q) [ some (v ∷ vs) ↦ v | _ ↦ [] ]

-- `q.Set(k, v)` where `q.Get(k)` is empty.
unfoldable pub default : Text → Text → Query → Query
unfolding is_empty get
default k v q = if is_empty (get q k) then insert k (v ∷ []) q else q

-- `strings.TrimPrefix(s, p)`
unfoldable pub trim_prefix : Text → Text → Text
trim_prefix s p = if starts_with s p then drop (length p) s else s

module _ (lib : UrlLib) where
  -- What becomes of a URL that was parsed.
  unfoldable pub complete : Text → Text → Url → Url
  complete db_user db_pass u =
      let q =
        default (lit "connect_timeout") (lit "5")
          (default (lit "sslmode") (lit "require") (lib.parse_query u.raw_query)) in
      record u { user = some (db_user, db_pass); raw_query = lib.encode q }

  unfoldable pub normalize_dsn : Text → Text → Text → Result Text
  normalize_dsn raw_url db_user db_pass =
      if is_blank raw_url
      then err (lit "db_url is empty")
      else elim (lib.parse (trim_prefix raw_url (lit "jdbc:"))) [
        | err e ↦ err (lit "parsing db_url: " ++ e)
        | ok u ↦
            if is_empty u.scheme || is_empty u.host
            then err (lit "db_url missing scheme or host")
            else ok (lib.to_string (complete db_user db_pass u))
      ]
