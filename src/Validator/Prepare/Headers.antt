-- ===== src/Validator/Prepare/Headers.antt =====
-- validator/validator.go: the headers of a source's realtime requests. The range over the map of
-- the configuration is a list with each key once, in an order that Go leaves open.
mod Tests
use server_validator.Prelude.{◌≡◌, ◌≢◌, refl, [], ◌∷◌, none, some, arith, inl, inr, ◌∙◌}
use server_validator.Text.{Text, text_eq_iff, text_eq_refl, text_eq-cases}
use server_validator.GoMap.{GoMap, lookup, lookup-insert}
use server_validator.Http.{Header, canonical, canonical_idem, set_header}
use server_validator.Feeds.Fetch.Request.{
  Once, IsRange, IsCanonical, add_headers, sent-one, sent-none,
}

-- The headers behind the loop, from `h` on.
unfoldable pub rt_headers : GoMap Text → Header → Header
rt_headers [] h = h
rt_headers ((k, v) ∷ range) h = rt_headers range (set_header k v h)

-- No two names of the map have the same spelling.
unfoldable pub Distinct : GoMap Text → Type 0
Distinct m =
    (j k : Text) → lookup j m ≢ none → lookup k m ≢ none → canonical j ≡ canonical k → j ≡ k

-- The name is the spelling of no name of the map.
unfoldable pub Unnamed : Text → GoMap Text → Type 0
Unnamed n m = (k : Text) → lookup k m ≢ none → canonical k ≢ n

set_header-other :
    (n k v : Text) (h : Header) → canonical k ≢ n → lookup n (set_header k v h) ≡ lookup n h
unfolding set_header
set_header-other n k v h d =
    ground (arith, lookup-insert n (canonical k) (v ∷ []) h, text_eq_iff n (canonical k))

set_header-same :
    (k v : Text) (h : Header) → lookup (canonical k) (set_header k v h) ≡ some (v ∷ [])
unfolding set_header
set_header-same k v h =
    ground (arith, lookup-insert (canonical k) (canonical k) (v ∷ []) h, text_eq_refl (canonical k))

set_header-IsCanonical : (k v : Text) (h : Header) → IsCanonical h → IsCanonical (set_header k v h)
unfolding IsCanonical set_header
set_header-IsCanonical k v h c = λ n d. elim (text_eq-cases n (canonical k)) [
  | inl e ↦ rw (e, canonical_idem k) refl
  | inr e ↦ c n (λ f. d (lookup-insert n (canonical k) (v ∷ []) h ∙ ground (arith)))
]

rt_headers-IsCanonical :
    (range : GoMap Text) (h : Header) → IsCanonical h → IsCanonical (rt_headers range h)
unfolding rt_headers
rt_headers-IsCanonical [] h c = c
rt_headers-IsCanonical ((k, v) ∷ range) h c =
    rt_headers-IsCanonical range (set_header k v h) (set_header-IsCanonical k v h c)

rt_headers-other :
    (n : Text) (range : GoMap Text) (h : Header)
    → Unnamed n range
    → lookup n (rt_headers range h) ≡ lookup n h
unfolding rt_headers Unnamed lookup
rt_headers-other n [] h u = refl
rt_headers-other n ((k, v) ∷ range) h u =
    rt_headers-other n range (set_header k v h) (λ j d. u j (λ e. d (ground arith)))
    ∙ set_header-other n k v h (u k (λ e. ground (arith, text_eq_refl k)))

Distinct-tail : (k v : Text) (range : GoMap Text) → Distinct ((k, v) ∷ range) → Distinct range
unfolding Distinct lookup
Distinct-tail k v range d = λ i j p q. d i j (λ e. p (ground arith)) (λ e. q (ground arith))

-- No name behind the first one has its spelling.
Distinct-Unnamed :
    (k v : Text) (range : GoMap Text)
    → Once ((k, v) ∷ range)
    → Distinct ((k, v) ∷ range)
    → Unnamed (canonical k) range
unfolding Distinct Unnamed Once lookup
Distinct-Unnamed k v range o d = λ j p e.
    let same : j ≡ k = d j k (λ f. p (ground arith)) (λ f. ground (arith, text_eq_refl k)) e in
    p (rw same o.0)

rt_headers-one :
    (k v : Text) (range : GoMap Text) (h : Header)
    → Once range
    → Distinct range
    → lookup k range ≡ some v
    → lookup (canonical k) (rt_headers range h) ≡ some (v ∷ [])
unfolding rt_headers Once lookup
rt_headers-one k v [] h o d e = cc
rt_headers-one k v ((j, w) ∷ range) h o d e = elim (text_eq-cases k j) [
  | inl same ↦
      let value : w ≡ v = ground (arith, text_eq_iff k j) in
      rw
        (
          same,
          rt_headers-other (canonical j) range (set_header j w h) (Distinct-Unnamed j w range o d),
          set_header-same j w h,
          value,
        )
        refl
  | inr other ↦
      let behind : lookup k range ≡ some v = ground arith in
      rt_headers-one k v range (set_header j w h) o.1 (Distinct-tail j w range d) behind
]

-- Two names that the one spelling would bring together are not in the map. Then, in whatever order
-- the two ranges go, the request carries for each name of the map its value and no other, and no
-- further name.
pub request_headers_lem :
    (m range : GoMap Text) (outer : Header)
    → IsRange range m
    → IsRange outer (rt_headers range [])
    → Distinct m
    → ((k v : Text)
        → lookup k m ≡ some v
        → lookup (canonical k) (add_headers outer []) ≡ some (v ∷ []))
      × ((n : Text) → Unnamed n m → lookup n (add_headers outer []) ≡ none)
unfolding Distinct Unnamed IsCanonical lookup
request_headers_lem m range outer r s d =
    let spelling : IsCanonical (rt_headers range []) =
      rt_headers-IsCanonical range [] (λ n e. absurd (e (refl))) in
    let known : (k : Text) → lookup k range ≢ none → lookup k m ≢ none =
      λ k p e. p (r.same k ∙ e) in
    let distinct : Distinct range = λ j k p q. d j k (known j p) (known k q) in
    (
      λ k v e.
          sent-one (canonical k) v outer (rt_headers range []) s spelling
            (rt_headers-one k v range [] r.once distinct (r.same k ∙ e)),
      λ n u.
          sent-none n outer (rt_headers range []) s spelling
            (rt_headers-other n range [] (λ k p. u k (known k p))),
    )
