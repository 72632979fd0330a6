-- ===== src/Validator/Prepare/Headers/Tests.antt =====
-- The headers of a source with two of them, met in the two orders.
use server_validator.Prelude.{
  ◌≡◌, ◌≢◌, refl, [], ◌∷◌, arith, none, some, inl, inr, ◌⊎◌, sym, ap, ◌∙◌,
}
use server_validator.Text.{Text, text_eq, text_eq_iff, text_eq-cases}
use server_validator.GoMap.{GoMap, lookup, insert}
use server_validator.Http.{
  Header, canonical, set_header, is_token, is_token_byte, is_lower, spelled, cased,
}
use server_validator.Feeds.Fetch.Request.{Once, IsRange, add_headers}
use server_validator.Validator.Prepare.Headers.{rt_headers, Distinct, Unnamed, request_headers_lem}

abbrev configured : GoMap Text
configured = (b'a' ∷ [], b'1' ∷ []) ∷ (b'b' ∷ [], b'2' ∷ []) ∷ []

abbrev met : GoMap Text
met = (b'b' ∷ [], b'2' ∷ []) ∷ (b'a' ∷ [], b'1' ∷ []) ∷ []

abbrev sent : Header
sent = (b'A' ∷ [], (b'1' ∷ []) ∷ []) ∷ (b'B' ∷ [], (b'2' ∷ []) ∷ []) ∷ []

met-IsRange : IsRange met configured
unfolding Once lookup text_eq
met-IsRange = record {
  once = (refl, (refl, tt));
  same = λ k. ground (arith, text_eq_iff k (b'a' ∷ []), text_eq_iff k (b'b' ∷ []));
}

set_headers : rt_headers met [] ≡ (b'B' ∷ [], (b'2' ∷ []) ∷ []) ∷ (b'A' ∷ [], (b'1' ∷ []) ∷ []) ∷ []
unfolding rt_headers set_header insert text_eq canonical is_token is_token_byte is_lower spelled
    cased
set_headers = refl

sent-IsRange : IsRange sent (rt_headers met [])
unfolding Once lookup text_eq
sent-IsRange = record {
  once = (refl, (refl, tt));
  same = λ k. rw set_headers (ground (arith, text_eq_iff k (b'A' ∷ []), text_eq_iff k (b'B' ∷ [])));
}

spellings-apart : canonical (b'a' ∷ []) ≢ canonical (b'b' ∷ [])
unfolding canonical is_token is_token_byte is_lower spelled cased
spellings-apart = λ e. ground arith

configured-Distinct : Distinct configured
unfolding Distinct lookup
configured-Distinct = λ j k p q e.
    let by : (i : Text) → lookup i configured ≢ none → (i ≡ b'a' ∷ []) ⊎ (i ≡ b'b' ∷ []) = λ i d.
      elim (text_eq-cases i (b'a' ∷ [])) [
        | inl f ↦ inl f
        | inr f ↦ inr (ground (arith, text_eq_iff i (b'b' ∷ [])))
      ] in
    elim (by j p) [
      | inl f ↦ elim (by k q) [
        | inl g ↦ f ∙ sym g
        | inr g ↦ absurd (spellings-apart (sym (ap canonical f) ∙ e ∙ ap canonical g))
      ]
      | inr f ↦ elim (by k q) [
        | inl g ↦ absurd (spellings-apart (sym (ap canonical g) ∙ sym e ∙ ap canonical f))
        | inr g ↦ f ∙ sym g
      ]
    ]

request_headers_lem_example :
    ((k v : Text)
      → lookup k configured ≡ some v
      → lookup (canonical k) (add_headers sent []) ≡ some (v ∷ []))
    × ((n : Text) → Unnamed n configured → lookup n (add_headers sent []) ≡ none)
request_headers_lem_example =
    request_headers_lem configured met sent met-IsRange sent-IsRange configured-Distinct
