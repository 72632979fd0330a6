-- ===== src/Feeds/Fetch/Chain.antt =====
-- The fetches of one URL, which a mutex makes follow each other: the goroutines of several sources,
-- or several runs with the same cache.
use server_validator.Prelude.{◌≡◌, inl, inr, Bool, List, [], ◌∷◌, arith, some, All, Option-cases}
use server_validator.Prelude.Int.{ℤ}
use server_validator.Text.{Text}
use server_validator.Sink.Dsn.{Result, ok, Result-cases}
use server_validator.Feeds.Fetch.{CacheMeta, Files, Codec, Response, Net, load, fetch_static}
use server_validator.Feeds.Fetch.Kept.{fetch_static-Kept}
use server_validator.Feeds.Fetch.Origin.{
  From, downloaded, revalidated, unasked, kept, fetch_static-From,
}

module _ (net : Net) (codec : Codec) (ttl : ℤ) (url : Text) where
  open net use {World}

  -- Fetches one after the other, each with its `noCache` and `refresh`, and with what becomes of the
  -- world before it.
  unfoldable pub fetch_chain :
      List (Bool × Bool × (World → World)) → Files → World → List (Result Text) × Files × World
  fetch_chain [] d w = ([], d, w)
  fetch_chain ((no_cache, refresh, meanwhile) ∷ rest) d w =
      let (answer, d1, w1) = fetch_static net codec ttl no_cache refresh url d (meanwhile w) in
      let (answers, d2, w2) = fetch_chain rest d1 w1 in (answer ∷ answers, d2, w2)

  -- The server sent these bytes, as the whole body of an answer with status 200 to a request for the
  -- URL.
  abbrev Sent : Text → Type 0
  Sent b =
      (hdr : List (Text × Text)) × (w : World) × (r : Response) × ((net.get url hdr w).0 ≡ ok r)
      × (r.status ≡ 200)
      × (r.body ≡ ok b)

  abbrev pub IsGenuine : Files → Type 0
  IsGenuine d = (b : Text) → d.body ≡ some b → Sent b

  load-body : (d : Files) (b : Text) (m : CacheMeta) → load codec d ≡ some (b, m) → d.body ≡ some b
  unfolding load
  load-body d b m h = elim (Option-cases d.body) [
    | inl e ↦ absurd (ground arith)
    | inr (body, e) ↦ elim (Option-cases d.meta) [
      | inl k ↦ absurd (ground arith)
      | inr (mb, k) ↦ elim (Result-cases (codec.unmarshal mb)) [
        | inl (t, q) ↦ absurd (ground arith)
        | inr (n, q) ↦ ground arith
      ]
    ]
  ]

  From-Sent :
      (d : Files) (refresh : Bool) (b : Text)
      → IsGenuine d
      → From net codec ttl url d refresh b
      → Sent b
  From-Sent d refresh b g (downloaded hdr w r a e s t) = (hdr, w, r, e, s, t)
  From-Sent d refresh b g (revalidated m hdr w r e a c s t) = g b (load-body d b m e)
  From-Sent d refresh b g (unasked m w r e a s t) = g b (load-body d b m e)
  From-Sent d refresh b g (kept m w e s t) = g b (load-body d b m e)

  abbrev pub answers-Sent : List (Result Text) → Type 0
  answers-Sent rs = All (λ r. (b : Text) → r ≡ ok b → Sent b) rs

  fetch-IsGenuine :
      (no_cache refresh : Bool) (d : Files) (w : World)
      → IsGenuine d
      → IsGenuine (fetch_static net codec ttl no_cache refresh url d w).1
  fetch-IsGenuine no_cache refresh d w g b h =
      elim (fetch_static-Kept net codec ttl no_cache refresh url d w) [
        | inl same ↦ g b (cc (same, h))
        | inr (c, e, stored) ↦
            let one : c ≡ b = ground arith in
            From-Sent d refresh b g
              (fetch_static-From net codec ttl no_cache refresh url d w b (cc (e, one)))
      ]

  -- If the body in the cache, where there is one, was sent by the server, then whatever the server
  -- and the clock did between and during the fetches, and whatever flags they had, all bytes that
  -- they return were sent by the server, and so was the body that they leave in the cache.
  pub fetch_chain-Sent :
      (plan : List (Bool × Bool × (World → World))) (d : Files) (w : World)
      → IsGenuine d
      → answers-Sent (fetch_chain plan d w).0 × IsGenuine (fetch_chain plan d w).1
  unfolding fetch_chain
  fetch_chain-Sent [] d w g = (tt, g)
  fetch_chain-Sent ((no_cache, refresh, meanwhile) ∷ rest) d w g =
      let r = fetch_static net codec ttl no_cache refresh url d (meanwhile w) in
      let later =
        fetch_chain-Sent rest r.1 r.2 (fetch-IsGenuine no_cache refresh d (meanwhile w) g) in
      (
        (
          λ b h.
              From-Sent d refresh b g
                (fetch_static-From net codec ttl no_cache refresh url d (meanwhile w) b h),
          later.0,
        ),
        later.1,
      )
