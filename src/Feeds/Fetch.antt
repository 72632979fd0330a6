-- ===== src/Feeds/Fetch.antt =====
-- feeds/cache.go and feeds/fetch.go, for one URL: its two files in the cache and the requests for
-- it. The files of another URL have other names, by a hash, and a mutex makes the fetches of one
-- URL follow each other.
pub mod Conditions
pub mod Origin
pub mod Kept
pub mod Chain
pub mod Request
mod Tests
use server_validator.Prelude.{
  ℕ, ◌==◌, Bool, true, false, not, ◌&&◌, ◌||◌, List, [], ◌∷◌, ◌++◌, Option, none, some,
  if◌then◌else◌,
}
use server_validator.Prelude.Int.{ℤ, ltb_ℤ}
use server_validator.Text.{Text, lit, is_empty}
use server_validator.Fmt.{decimal}
use server_validator.Sink.Dsn.{Result, ok, err}
use server_validator.Feeds.Gtfs.{Time}

pub record CacheMeta : Type 0 where
  pub url : Text
  pub etag : Text
  pub last_modified : Text
  pub fetched_at : Time

-- The second argument is `time.Since(m.FetchedAt)`.
unfoldable pub fresh : CacheMeta → ℤ → ℤ → Bool
fresh m since ttl = is_empty m.etag && is_empty m.last_modified && ltb_ℤ since ttl

-- What can be read of the two files; `none` where there is no file or it cannot be read.
pub record Files : Type 0 where
  pub body : Option Text
  pub meta : Option Text

-- The errors of the steps of a store. A write of the meta file that fails leaves what it will.
pub record Faults : Type 0 where
  pub mkdir_error : Option Text
  pub create_error : Option Text
  pub write_error : Option Text
  pub close_error : Option Text
  pub rename_error : Option Text
  pub meta_error : Option (Text × Option Text)

-- `json.Marshal` and `json.Unmarshal` of the meta data.
pub record Codec : Type 0 where
  pub marshal : CacheMeta → Result Text
  pub unmarshal : Text → Result CacheMeta

pub record Response : Type 0 where
  pub status : ℕ
  pub body : Result Text
  pub etag : Text
  pub last_modified : Text

-- The client and the clock.
pub record Net : Type 1 where
  pub World : Type 0
  pub get : Text → List (Text × Text) → World → Result Response × World
  pub since : Time → World → ℤ × World
  pub now : World → Time × World
  pub faults : World → Faults × World

unfoldable pub load : Codec → Files → Option (Text × CacheMeta)
load codec d = elim d.body [
  | none ↦ none
  | some body ↦ elim d.meta [
    | none ↦ none
    | some mb ↦ elim (codec.unmarshal mb) [ err e ↦ none | ok m ↦ some (body, m) ]
  ]
]

-- The steps up to the rename: the first error.
unfoldable pub body_error : Faults → Option Text
body_error f = elim f.mkdir_error [
  | some e ↦ some e
  | none ↦ elim f.create_error [
    | some e ↦ some e
    | none ↦ elim f.write_error [
      | some e ↦ some e
      | none ↦ elim f.close_error [ some e ↦ some e | none ↦ f.rename_error ]
    ]
  ]
]

-- The files behind a store, and its error. The temporary file is no file of the entry.
unfoldable pub store : Codec → Faults → Text → CacheMeta → Files → Files × Option Text
store codec f body m d = elim (body_error f) [
  | some e ↦ (d, some e)
  | none ↦
      let renamed : Files = record d { body = some body } in
      elim (codec.marshal m) [
        | err e ↦ (renamed, some e)
        | ok mb ↦ elim f.meta_error [
          | some (e, left) ↦ (record renamed { meta = left }, some e)
          | none ↦ (record renamed { meta = some mb }, none)
        ]
      ]
]

-- The headers of the request: the conditions of the entry, and none if a refresh is asked for.
unfoldable pub conditions : Option (Text × CacheMeta) → Bool → List (Text × Text)
conditions hit refresh = elim hit [
  | none ↦ []
  | some (body, m) ↦
      if refresh
      then []
      else (if not (is_empty m.etag) then (lit "If-None-Match", m.etag) ∷ [] else [])
        ++ (if not (is_empty m.last_modified)
            then (lit "If-Modified-Since", m.last_modified) ∷ []
            else [])
]

unfoldable pub bad_status : Text → ℕ → Text
bad_status url n = lit "GET " ++ url ++ lit ": status " ++ decimal n

module _ (net : Net) where
  open net use {World}

  unfoldable pub fetch_realtime : Text → List (Text × Text) → World → Result Text × World
  fetch_realtime url hdr w =
      let (resp, w1) = net.get url hdr w in
      elim resp [
        | err e ↦ (err e, w1)
        | ok r ↦ if not (r.status == 200) then (err (bad_status url r.status), w1) else (r.body, w1)
      ]

  module _ (codec : Codec) (ttl : ℤ) where
    -- What becomes of an answer that is not taken as "not modified": the bytes and the files. The
    -- error of the store is dropped.
    unfoldable pub keep : Text → Response → Files → World → Result Text × Files × World
    keep url r d w =
        if not (r.status == 200) then (err (bad_status url r.status), d, w) else elim r.body [
          | err e ↦ (err e, d, w)
          | ok body ↦
              let (fetched_at, w1) = net.now w in
              let (f, w2) = net.faults w1 in
              let m : CacheMeta = record {
                url = url;
                etag = r.etag;
                last_modified = r.last_modified;
                fetched_at = fetched_at;
              } in
              (ok body, (store codec f body m d).0, w2)
        ]

    unfoldable pub receive :
        Text → Option (Text × CacheMeta) → Response → Files → World → Result Text × Files × World
    receive url hit r d w = elim hit [
      | none ↦ keep url r d w
      | some (body, m) ↦ if r.status == 304 then (ok body, d, w) else keep url r d w
    ]

    -- The request, and what becomes of its answer.
    unfoldable pub request :
        Text → Bool → Option (Text × CacheMeta) → Files → World → Result Text × Files × World
    request url refresh hit d w =
        let (resp, w1) = net.get url (conditions hit refresh) w in
        elim resp [ err e ↦ (err e, d, w1) | ok r ↦ receive url hit r d w1 ]

    -- The first two arguments are `f.noCache` and `f.refresh`; there is a cache.
    unfoldable pub fetch_static : Bool → Bool → Text → Files → World → Result Text × Files × World
    fetch_static no_cache refresh url d w =
        if no_cache
        then (let (answer, w1) = fetch_realtime url [] w in (answer, d, w1))
        else elim (load codec d) [
          | none ↦ request url refresh none d w
          | some (body, m) ↦
              if refresh
              then request url refresh (some (body, m)) d w
              else (let (age, w1) = net.since m.fetched_at w in
                  if fresh m age ttl
                  then (ok body, d, w1)
                  else request url refresh (some (body, m)) d w1)
        ]
