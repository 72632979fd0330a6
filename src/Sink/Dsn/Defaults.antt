-- ===== src/Sink/Dsn/Defaults.antt =====
-- What `normalizeDSN` changes in a URL.
use server_validator.Prelude.{
  ◌≡◌, ◌⊎◌, inl, inr, ◌≢◌, refl, ◌∙◌, [], ◌∷◌, arith, some, if◌then◌else◌,
}
use server_validator.Text.{Text, lit, text_eq, text_eq_iff, text_eq-cases, is_empty}
use server_validator.GoMap.{lookup, lookup-insert}
use server_validator.Sink.Dsn.{Query, Url, UrlLib, get, default, complete}

get-default :
    (k v j : Text) (q : Query)
    → get (default k v q) j
      ≡ (if text_eq j k then (if is_empty (get q k) then v else get q k) else get q j)
unfolding default get
get-default k v j q = ground (arith, lookup-insert j k (v ∷ []) q, text_eq_iff j k)

lookup-default : (k v j : Text) (q : Query) → j ≢ k → lookup j (default k v q) ≡ lookup j q
unfolding default
lookup-default k v j q n = ground (arith, lookup-insert j k (v ∷ []) q, text_eq_iff j k)

names_differ : lit "sslmode" ≢ lit "connect_timeout"
unfolding lit
names_differ h = cc

-- The user and the password are the caller's, TLS is required and the connection times out after
-- 5 seconds unless the URL says otherwise, and every other parameter and part is kept.
pub complete_lem :
    (lib : UrlLib) (db_user db_pass : Text) (u : Url)
    → let q0 = lib.parse_query u.raw_query in
      let v = complete lib db_user db_pass u in
      (q : Query) × (v ≡ record u { user = some (db_user, db_pass); raw_query = lib.encode q })
      × (get q (lit "sslmode")
          ≡ (if is_empty (get q0 (lit "sslmode")) then lit "require" else get q0 (lit "sslmode")))
      × (get q (lit "connect_timeout") ≡ (
          if is_empty (get q0 (lit "connect_timeout"))
          then lit "5"
          else get q0 (lit "connect_timeout")))
      × ((k : Text)
          → (k ≡ lit "sslmode") ⊎ (k ≡ lit "connect_timeout") ⊎ (lookup k q ≡ lookup k q0))
unfolding complete
complete_lem lib db_user db_pass u =
    let q0 = lib.parse_query u.raw_query in
    let q1 = default (lit "sslmode") (lit "require") q0 in
    let get1 = λ (j : Text). get-default (lit "sslmode") (lit "require") j q0 in
    let get2 = λ (j : Text). get-default (lit "connect_timeout") (lit "5") j q1 in
    let apart = text_eq_iff (lit "sslmode") (lit "connect_timeout") in
    let apart' = text_eq_iff (lit "connect_timeout") (lit "sslmode") in
    (
      default (lit "connect_timeout") (lit "5") q1,
      refl,
      ground (
        arith,
        get2 (lit "sslmode"),
        get1 (lit "sslmode"),
        apart,
        names_differ,
        text_eq_iff (lit "sslmode") (lit "sslmode"),
      ),
      ground (
        arith,
        get2 (lit "connect_timeout"),
        get1 (lit "connect_timeout"),
        apart',
        names_differ,
        text_eq_iff (lit "connect_timeout") (lit "connect_timeout"),
      ),
      λ k. elim (text_eq-cases k (lit "sslmode")) [
        | inl e ↦ inl e
        | inr n ↦ elim (text_eq-cases k (lit "connect_timeout")) [
          | inl e ↦ inr (inl e)
          | inr m ↦ inr (
              inr (
                lookup-default (lit "connect_timeout") (lit "5") k q1
                  (λ e. cc ((text_eq_iff k (lit "connect_timeout")).1 e, m))
                ∙ lookup-default (lit "sslmode") (lit "require") k q0
                    (λ e. cc ((text_eq_iff k (lit "sslmode")).1 e, n))))
        ]
      ],
    )
