-- ===== src/Feeds/Fetch/Request.antt =====
-- feeds/fetch.go: the loop of `get` over the headers of its caller. A range over a Go map is a list
-- with each key once, in an order that Go leaves open.
use server_validator.Prelude.{
  ◌≡◌, ◌≢◌, refl, List, [], ◌∷◌, ◌++◌, none, some, arith, false, inl, inr, sym, ◌∙◌,
}
use server_validator.Text.{Text, text_eq, text_eq_iff, text_eq_refl, text_eq-cases}
use server_validator.GoMap.{GoMap, lookup, lookup-insert}
use server_validator.Http.{Header, canonical, add_header, values}

unfoldable pub add_values : Text → List Text → Header → Header
add_values k [] h = h
add_values k (v ∷ vs) h = add_values k vs (add_header k v h)

-- The headers of the request behind the loop, from `h` on.
unfoldable pub add_headers : Header → Header → Header
add_headers [] h = h
add_headers ((k, vs) ∷ outer) h = add_headers outer (add_values k vs h)

module _ {V : Type 0} where
  -- Each key stands in the list once.
  unfoldable pub Once : GoMap V → Type 0
  Once [] = Unit
  Once ((k, v) ∷ m) = (lookup k m ≡ none) × Once m

  -- The list is a range over the map.
  pub record IsRange (range m : GoMap V) : Type 0 where
    pub once : Once range
    pub same : (k : Text) → lookup k range ≡ lookup k m

-- Every name of the header is in the one spelling.
unfoldable pub IsCanonical : Header → Type 0
IsCanonical h = (n : Text) → lookup n h ≢ none → canonical n ≡ n

add_values-other :
    (n k : Text) (vs : List Text) (h : Header)
    → text_eq n (canonical k) ≡ false
    → lookup n (add_values k vs h) ≡ lookup n h
unfolding add_values add_header
add_values-other n k [] h d = refl
add_values-other n k (v ∷ vs) h d = ground (
  arith,
  add_values-other n k vs (add_header k v h) d,
  lookup-insert n (canonical k) (values (lookup (canonical k) h) ++ v ∷ []) h,
)

add_values-one :
    (n k v : Text) (h : Header)
    → canonical k ≡ n
    → lookup n (add_values k (v ∷ []) h) ≡ some (values (lookup n h) ++ v ∷ [])
unfolding add_values add_header
add_values-one n k v h e =
    rw (e, lookup-insert n n (values (lookup n h) ++ v ∷ []) h, text_eq_refl n) refl

IsCanonical-head :
    (k : Text) (vs : List Text) (outer : Header) → IsCanonical ((k, vs) ∷ outer) → canonical k ≡ k
unfolding IsCanonical lookup
IsCanonical-head k vs outer c = c k (λ e. ground (arith, text_eq_refl k))

IsCanonical-tail :
    (k : Text) (vs : List Text) (outer : Header) → IsCanonical ((k, vs) ∷ outer) → IsCanonical outer
unfolding IsCanonical lookup
IsCanonical-tail k vs outer c = λ n h. c n (λ e. ground arith)

-- Names that the header has not stay as they are.
add_headers-other :
    (n : Text) (outer h : Header)
    → IsCanonical outer
    → lookup n outer ≡ none
    → lookup n (add_headers outer h) ≡ lookup n h
unfolding add_headers lookup
add_headers-other n [] h c e = refl
add_headers-other n ((k, vs) ∷ outer) h c e = elim (text_eq-cases n k) [
  | inl same ↦ ground (arith, text_eq_iff n k)
  | inr other ↦
      add_headers-other n outer (add_values k vs h) (IsCanonical-tail k vs outer c) (ground arith)
      ∙ add_values-other n k vs h (rw (IsCanonical-head k vs outer c) other)
]

-- A name with one value has this value in the request behind those it had.
add_headers-one :
    (n v : Text) (outer h : Header)
    → IsCanonical outer
    → Once outer
    → lookup n outer ≡ some (v ∷ [])
    → lookup n (add_headers outer h) ≡ some (values (lookup n h) ++ v ∷ [])
unfolding add_headers Once lookup
add_headers-one n v [] h c o e = cc
add_headers-one n v ((k, vs) ∷ outer) h c o e = elim (text_eq-cases n k) [
  | inl same ↦
      let alone : vs ≡ v ∷ [] = ground (arith, text_eq_iff n k) in
      add_headers-other n outer (add_values k vs h) (IsCanonical-tail k vs outer c) (rw same o.0)
      ∙ rw alone (add_values-one n k v h (IsCanonical-head k vs outer c ∙ sym same))
  | inr other ↦
      let alone : lookup n outer ≡ some (v ∷ []) = ground arith in
      add_headers-one n v outer (add_values k vs h) (IsCanonical-tail k vs outer c) o.1 alone
      ∙ rw (add_values-other n k vs h (rw (IsCanonical-head k vs outer c) other)) refl
]

-- A request that starts with no header: what a name has in it.
pub sent-one :
    (n v : Text) (outer m : Header)
    → IsRange outer m
    → IsCanonical m
    → lookup n m ≡ some (v ∷ [])
    → lookup n (add_headers outer []) ≡ some (v ∷ [])
unfolding IsCanonical values lookup
sent-one n v outer m r c e =
    add_headers-one n v outer [] (λ k h. c k (λ f. h (r.same k ∙ f))) r.once (r.same n ∙ e)

pub sent-none :
    (n : Text) (outer m : Header)
    → IsRange outer m
    → IsCanonical m
    → lookup n m ≡ none
    → lookup n (add_headers outer []) ≡ none
unfolding IsCanonical lookup
sent-none n outer m r c e =
    add_headers-other n outer [] (λ k h. c k (λ f. h (r.same k ∙ f))) (r.same n ∙ e)
