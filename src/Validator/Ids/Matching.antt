-- ===== src/Validator/Ids/Matching.antt =====
-- When an OBA id and a feed's id name the same entity.
use server_validator.Prelude.{
  ◌≡◌, ◌≢◌, ◌↔◌, ◌⊎◌, inl, inr, refl, true, [], ◌∷◌, ◌++◌, arith, Option-cases,
}
use server_validator.Text.{Text, text_eq_iff, is_empty}
use server_validator.Text.Search.{
  after_byte, before_byte, Lacks, after_byte_split, after_byte-append,
}
use server_validator.Validator.Ids.{underscore, raw_id, prefixed_id, id_match}

-- The prefix of an agency whose id has no underscore is taken off again.
raw_id-prefixed_id :
    (agency raw : Text)
    → agency ≢ []
    → Lacks underscore agency
    → raw_id (prefixed_id agency raw) ≡ raw
unfolding raw_id prefixed_id
raw_id-prefixed_id [] raw n h = absurd (n refl)
raw_id-prefixed_id (c ∷ agency) raw n h =
    ground (arith, after_byte-append underscore (c ∷ agency) raw h)

-- The ids that stand for `raw`: `raw` itself, `raw` behind a prefix without an underscore, and
-- `raw` behind the agency's id.
abbrev pub NamesEntity : Text → Text → Text → Type 0
NamesEntity api raw agency =
    (api ≡ raw)
    ⊎ ((p : Text) × Lacks underscore p × (api ≡ p ++ underscore ∷ raw))
    ⊎ ((agency ≢ []) × (api ≡ agency ++ underscore ∷ raw))

raw_id_found :
    (api raw : Text)
    → raw_id api ≡ raw
    → (api ≡ raw) ⊎ ((p : Text) × Lacks underscore p × (api ≡ p ++ underscore ∷ raw))
unfolding raw_id
raw_id_found api raw h = elim (Option-cases (after_byte underscore api)) [
  | inl e ↦ inl (ground arith)
  | inr (rest, e) ↦
      let (lacks, split) = after_byte_split underscore api rest e in
      inr (before_byte underscore api, lacks, ground arith)
]

raw_id_complete : (p raw : Text) → Lacks underscore p → raw_id (p ++ underscore ∷ raw) ≡ raw
unfolding raw_id
raw_id_complete p raw h = ground (arith, after_byte-append underscore p raw h)

is_empty_iff : (s : Text) → (is_empty s ≡ true) ↔ (s ≡ [])
unfolding is_empty
is_empty_iff [] = (λ h. refl, λ h. refl)
is_empty_iff (c ∷ s) = (λ h. cc, λ h. cc)

id_match_sound :
    (api raw agency : Text) → id_match api raw agency ≡ true → NamesEntity api raw agency
unfolding id_match prefixed_id
id_match_sound api raw agency h = ground (
  arith,
  text_eq_iff api raw,
  text_eq_iff (raw_id api) raw,
  text_eq_iff api (agency ++ underscore ∷ raw),
  raw_id_found api raw,
  is_empty_iff agency,
)

id_match_complete :
    (api raw agency : Text) → NamesEntity api raw agency → id_match api raw agency ≡ true
unfolding id_match prefixed_id
id_match_complete api raw agency (inl e) = ground (arith, text_eq_iff api raw)
id_match_complete api raw agency (inr (inl (p, lacks, e))) =
    ground (arith, text_eq_iff (raw_id api) raw, raw_id_complete p raw lacks)
id_match_complete api raw agency (inr (inr (n, e))) =
    ground (arith, text_eq_iff api (agency ++ underscore ∷ raw), is_empty_iff agency)

-- An OBA id matches a feed's id exactly when it is that id, that id behind some prefix without an
-- underscore, or that id behind the agency's id, which then is not empty.
pub id_match_iff :
    (api raw agency : Text) → (id_match api raw agency ≡ true) ↔ NamesEntity api raw agency
id_match_iff api raw agency = (id_match_sound api raw agency, id_match_complete api raw agency)
