-- ===== src/Feeds/Fetch/Kept.antt =====
-- feeds/fetch.go: what a fetch leaves of the files of the cache.
use server_validator.Prelude.{
  ◌==◌, ◌≡◌, ◌⊎◌, inl, inr, refl, Bool, true, false, arith, Option, none, some, Option-cases,
  Bool-cases,
}
use server_validator.Prelude.Int.{ℤ}
use server_validator.Text.{Text}
use server_validator.Sink.Dsn.{Result, ok, Result-cases}
use server_validator.Feeds.Fetch.{
  CacheMeta, fresh, Files, Faults, Codec, Response, Net, load, body_error, store, conditions, keep,
  receive, request, fetch_static,
}

-- Whatever step of a store fails, the files behind it are the old ones, or have the whole new body.
store_lem :
    (codec : Codec) (f : Faults) (body : Text) (m : CacheMeta) (d : Files)
    → ((store codec f body m d).0 ≡ d) ⊎ ((store codec f body m d).0.body ≡ some body)
unfolding store
store_lem codec f body m d = elim (Option-cases (body_error f)) [
  | inr (e, h) ↦ inl (ground arith)
  | inl h ↦ elim (Result-cases (codec.marshal m)) [
    | inl (e, g) ↦ inr (ground arith)
    | inr (mb, g) ↦ elim (Option-cases f.meta_error) [
      | inr ((e, left), k) ↦ inr (ground arith)
      | inl k ↦ inr (ground arith)
    ]
  ]
]

module _ (net : Net) (codec : Codec) (ttl : ℤ) where
  open net use {World}

  -- The files are as they were, or the bytes that were returned are the body.
  abbrev Kept : Files → Result Text × Files × World → Type 0
  Kept d (answer, files, w) = (files ≡ d) ⊎ ((b : Text) × (answer ≡ ok b) × (files.body ≡ some b))

  keep-Kept :
      (url : Text) (r : Response) (d : Files) (w : World) → Kept d (keep net codec ttl url r d w)
  unfolding keep
  keep-Kept url r d w = elim (Bool-cases (r.status == 200)) [
    | inr bad ↦ inl (ground arith)
    | inl good ↦ elim (Result-cases r.body) [
      | inl (e, g) ↦ inl (ground arith)
      | inr (body, g) ↦
          let at = (net.now w).0 in
          let f = (net.faults (net.now w).1).0 in
          let m : CacheMeta = record {
            url = url;
            etag = r.etag;
            last_modified = r.last_modified;
            fetched_at = at;
          } in
          elim (store_lem codec f body m d) [
            | inl same ↦ inl (ground (arith, same))
            | inr stored ↦ inr (body, ground arith, ground (arith, stored))
          ]
    ]
  ]

  request-Kept :
      (url : Text) (refresh : Bool) (hit : Option (Text × CacheMeta)) (d : Files) (w : World)
      → Kept d (request net codec ttl url refresh hit d w)
  unfolding request receive
  request-Kept url refresh none d w =
      elim (Result-cases (net.get url (conditions none refresh) w).0) [
        | inl (e, g) ↦ inl (ground arith)
        | inr (r, g) ↦
            rw (g, request) (keep-Kept url r d (net.get url (conditions none refresh) w).1)
      ]
  request-Kept url refresh (some (c, m)) d w =
      let asked = net.get url (conditions (some (c, m)) refresh) w in
      elim (Result-cases asked.0) [
        | inl (e, g) ↦ inl (ground arith)
        | inr (r, g) ↦ elim (Bool-cases (r.status == 304)) [
          | inl same ↦ inl (ground arith)
          | inr other ↦ rw (g, other, request) (keep-Kept url r d asked.1)
        ]
      ]

  -- A fetch of a static feed leaves the files of the cache as they were, or it returns bytes and
  -- these are the whole body in the cache; so a fetch that returns an error leaves them as they
  -- were.
  pub fetch_static-Kept :
      (no_cache refresh : Bool) (url : Text) (d : Files) (w : World)
      → let (answer, files, _) = fetch_static net codec ttl no_cache refresh url d w in
        (files ≡ d) ⊎ ((b : Text) × (answer ≡ ok b) × (files.body ≡ some b))
  unfolding fetch_static
  fetch_static-Kept true refresh url d w = inl refl
  fetch_static-Kept false refresh url d w = elim (Option-cases (load codec d)) [
    | inl e ↦ rw (e, fetch_static) (request-Kept url refresh none d w)
    | inr ((c, m), e) ↦ elim (Bool-cases refresh) [
      | inl asked ↦ rw (e, asked, fetch_static) (request-Kept url true (some (c, m)) d w)
      | inr not_asked ↦ elim (Bool-cases (fresh m (net.since m.fetched_at w).0 ttl)) [
        | inl young ↦ inl (ground arith)
        | inr old ↦
            rw (e, not_asked, old, fetch_static)
              (request-Kept url false (some (c, m)) d (net.since m.fetched_at w).1)
      ]
    ]
  ]
