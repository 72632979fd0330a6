-- ===== src/Feeds/Fetch/Origin.antt =====
-- Where the bytes of a fetch come from, and what is read back of a store.
use server_validator.Prelude.{
  ◌==◌, ==_iff, ◌≡◌, ◌⊎◌, inl, inr, refl, Bool, true, false, List, [], arith, none, some,
  Option-cases, Bool-cases,
}
use server_validator.Prelude.Int.{ℤ}
use server_validator.Text.{Text}
use server_validator.Sink.Dsn.{ok, Result-cases}
use server_validator.Feeds.Fetch.Conditions.{IsConditional, conditions-IsConditional}
use server_validator.Feeds.Fetch.{
  CacheMeta, fresh, Files, Faults, Codec, Response, Net, load, body_error, store, conditions,
  fetch_realtime, keep, receive, request, fetch_static,
}

-- Where the meta data are decoded as they were encoded, a store without an error is read back,
-- whatever the files were.
pub load-store :
    (codec : Codec) (f : Faults) (body : Text) (m : CacheMeta) (d : Files)
    → ((mb : Text) → codec.marshal m ≡ ok mb → codec.unmarshal mb ≡ ok m)
    → (store codec f body m d).1 ≡ none
    → load codec (store codec f body m d).0 ≡ some (body, m)
unfolding store load
load-store codec f body m d decodes done = elim (Option-cases (body_error f)) [
  | inr (e, h) ↦ absurd (ground arith)
  | inl h ↦ elim (Result-cases (codec.marshal m)) [
    | inl (e, g) ↦ absurd (ground arith)
    | inr (mb, g) ↦ elim (Option-cases f.meta_error) [
      | inr ((e, left), k) ↦ absurd (ground arith)
      | inl k ↦ ground (arith, decodes mb g)
    ]
  ]
]

module _ (net : Net) (codec : Codec) (ttl : ℤ) where
  open net use {World}

  -- Where the bytes `b` of a fetch come from: from an answer with status 200 to a request for the
  -- URL, which is without conditions if a refresh was asked for; from the entry of the cache, which
  -- the server said is not modified, in answer to a request with the conditions of the entry, or,
  -- unasked, in answer to one without conditions; or from an entry that is fresh.
  pub data From (url : Text) (d : Files) (refresh : Bool) (b : Text) : Type 0 where
    downloaded :
        (hdr : List (Text × Text)) (w : World) (r : Response)
        → (refresh ≡ false) ⊎ (hdr ≡ [])
        → (net.get url hdr w).0 ≡ ok r
        → r.status ≡ 200
        → r.body ≡ ok b
        → From url d refresh b
    revalidated :
        (m : CacheMeta) (hdr : List (Text × Text)) (w : World) (r : Response)
        → load codec d ≡ some (b, m)
        → refresh ≡ false
        → IsConditional m hdr
        → (net.get url hdr w).0 ≡ ok r
        → r.status ≡ 304
        → From url d refresh b
    unasked :
        (m : CacheMeta) (w : World) (r : Response)
        → load codec d ≡ some (b, m)
        → refresh ≡ true
        → (net.get url [] w).0 ≡ ok r
        → r.status ≡ 304
        → From url d refresh b
    kept :
        (m : CacheMeta) (w : World)
        → load codec d ≡ some (b, m)
        → refresh ≡ false
        → fresh m (net.since m.fetched_at w).0 ttl ≡ true
        → From url d refresh b

  fetch_realtime-From :
      (url : Text) (d : Files) (refresh : Bool) (w : World) (b : Text)
      → (fetch_realtime net url [] w).0 ≡ ok b
      → From url d refresh b
  unfolding fetch_realtime
  fetch_realtime-From url d refresh w b h = elim (Result-cases (net.get url [] w).0) [
    | inl (e, g) ↦ absurd (ground arith)
    | inr (r, g) ↦
        downloaded [] w r (inr refl) g (ground (arith, ==_iff r.status 200)) (ground arith)
  ]

  keep-status :
      (url : Text) (r : Response) (d : Files) (w : World) (b : Text)
      → (keep net codec ttl url r d w).0 ≡ ok b
      → (r.status ≡ 200) × (r.body ≡ ok b)
  unfolding keep
  keep-status url r d w b h = elim (Result-cases r.body) [
    | inl (e, g) ↦ ground (arith, ==_iff r.status 200)
    | inr (c, g) ↦ ground (arith, ==_iff r.status 200)
  ]

  request_missed :
      (url : Text) (refresh : Bool) (d : Files) (w : World) (b : Text)
      → (request net codec ttl url refresh none d w).0 ≡ ok b
      → From url d refresh b
  unfolding request receive conditions
  request_missed url refresh d w b h =
      elim (Result-cases (net.get url (conditions none refresh) w).0) [
        | inl (e, g) ↦ absurd (ground arith)
        | inr (r, g) ↦
            let w1 = (net.get url (conditions none refresh) w).1 in
            let (st, body) = keep-status url r d w1 b (ground arith) in
            downloaded [] w r (inr refl) g st body
      ]

  -- A refresh sends no conditions.
  refreshed :
      (c : Text) (m : CacheMeta) (refresh : Bool)
      → (refresh ≡ false) ⊎ (conditions (some (c, m)) refresh ≡ [])
  unfolding conditions
  refreshed c m true = inr refl
  refreshed c m false = inl refl

  not_modified :
      (url : Text) (refresh : Bool) (d : Files) (w : World) (b : Text) (m : CacheMeta)
      (r : Response)
      → load codec d ≡ some (b, m)
      → (net.get url (conditions (some (b, m)) refresh) w).0 ≡ ok r
      → r.status ≡ 304
      → From url d refresh b
  unfolding conditions
  not_modified url true d w b m r found g st = unasked m w r found refl g st
  not_modified url false d w b m r found g st =
      revalidated m (conditions (some (b, m)) false) w r found refl (conditions-IsConditional b m) g
        st

  request_hit :
      (url : Text) (refresh : Bool) (d : Files) (w : World) (b c : Text) (m : CacheMeta)
      → load codec d ≡ some (c, m)
      → (request net codec ttl url refresh (some (c, m)) d w).0 ≡ ok b
      → From url d refresh b
  unfolding request receive
  request_hit url refresh d w b c m found h =
      let hdr = conditions (some (c, m)) refresh in
      elim (Result-cases (net.get url hdr w).0) [
        | inl (e, g) ↦ absurd (ground arith)
        | inr (r, g) ↦ elim (Bool-cases (r.status == 304)) [
          | inl same ↦
              let e : c ≡ b = ground arith in
              not_modified url refresh d w b m r (rw (← e) found) (rw (← e) g)
                ((==_iff r.status 304).0 same)
          | inr other ↦
              let (st, body) = keep-status url r d (net.get url hdr w).1 b (ground arith) in
              downloaded hdr w r (refreshed c m refresh) g st body
        ]
      ]

  -- The bytes that a fetch of a static feed returns come from an answer with status 200 to a
  -- request for the URL, which has no headers if a refresh was asked for; or from the entry of the
  -- cache. In this case no refresh was asked for, and the entry is fresh, or the server answered
  -- with status 304 to a request that carried the entity tag and the date of the entry, where it
  -- has them, and nothing else; or a refresh was asked for, and the server answered with status 304
  -- to a request without headers.
  pub fetch_static-From :
      (no_cache refresh : Bool) (url : Text) (d : Files) (w : World) (b : Text)
      → (fetch_static net codec ttl no_cache refresh url d w).0 ≡ ok b
      → From url d refresh b
  unfolding fetch_static
  fetch_static-From true refresh url d w b h = fetch_realtime-From url d refresh w b h
  fetch_static-From false refresh url d w b h = elim (Option-cases (load codec d)) [
    | inl e ↦ request_missed url refresh d w b (ground arith)
    | inr ((c, m), e) ↦ elim (Bool-cases refresh) [
      | inl asked ↦ request_hit url refresh d w b c m e (ground arith)
      | inr not_asked ↦ elim (Bool-cases (fresh m (net.since m.fetched_at w).0 ttl)) [
        | inl young ↦ let same : c ≡ b = ground arith in kept m w (rw (← same) e) not_asked young
        | inr old ↦ request_hit url refresh d (net.since m.fetched_at w).1 b c m e (ground arith)
      ]
    ]
  ]
