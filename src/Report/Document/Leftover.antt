-- ===== src/Report/Document/Leftover.antt =====
-- The groups of a report whose results all belong to the server or to a configured source.
use server_validator.Prelude.{
  ℕ, suc, ◌≡◌, ◌≢◌, ◌⊎◌, inl, inr, refl, ap, sym, ◌∙◌, List, [], ◌∷◌, ◌++◌, map, arith, none, some,
  Option-cases, All, Any, append_assoc, append-nil,
}
use mathlib.Core.Path.{subst}
use server_validator.Text.{Text, lit, text_eq_iff, text_eq_refl}
use server_validator.Fmt.{decimal}
use server_validator.GoMap.{GoMap, lookup, insert, delete, keys, lookup-insert, lookup-delete}
use server_validator.Sort.{sort_stable, sort_strings}
use server_validator.Config.{DataSource}
use server_validator.Validator.Status.{Result}
use server_validator.Report.Document.{
  Group, no_counts, build_group, results_of, group_results, source_id, source_groups,
  leftover_groups, build_groups,
}
use server_validator.Report.Document.Sources.{fill-items}

-- The ids of the sources from the `i`-th on.
abbrev pub source_ids : ℕ → List DataSource → List Text
source_ids i [] = []
source_ids i (d ∷ ds) = source_id i ∷ source_ids (suc i) ds

abbrev pub IsOneOf : List Text → Text → Type 0
IsOneOf ks k = Any (λ j. k ≡ j) ks

-- The result is for the whole server or for one of the sources.
abbrev pub IsPlaced : List Text → Result → Type 0
IsPlaced ids r = (r.source ≡ []) ⊎ IsOneOf ids r.source

abbrev group_ids : List Group → List Text
group_ids = map (λ g. g.id)

build_group-id :
    (id label api_key : Text) (rs : List Result) (g : Group)
    → build_group id label rs api_key ≡ some g
    → g.id ≡ id
unfolding build_group
build_group-id id label api_key rs g e =
    (fill-items api_key rs (record { id = id; label = label; counts = no_counts; results = [] }) g
      e).1

group_ids-append :
    (groups : List Group) (g : Group) → group_ids (groups ++ g ∷ []) ≡ group_ids groups ++ g.id ∷ []
group_ids-append [] g = refl
group_ids-append (h ∷ groups) g = ap (λ ks. h.id ∷ ks) (group_ids-append groups g)

lookup-deleted :
    (k id : Text) (m : GoMap (List Result))
    → lookup k (delete id m) ≢ none
    → (k ≢ id) × (lookup k m ≢ none)
lookup-deleted k id m h = ground (arith, lookup-delete k id m, text_eq_iff k id)

lookup-inserted :
    (k j : Text) (rs : List Result) (m : GoMap (List Result))
    → lookup k (insert j rs m) ≢ none
    → (j ≡ k) ⊎ (lookup k m ≢ none)
lookup-inserted k j rs m h = ground (arith, lookup-insert k j rs m, text_eq_iff k j)

-- A key behind the loop was there before, and is none of the sources.
source_groups-ids :
    (api_key : Text) (i : ℕ) (ds : List DataSource) (groups gs : List Group)
    (m left : GoMap (List Result))
    → source_groups api_key i ds (groups, m) ≡ some (gs, left)
    → (group_ids gs ≡ group_ids groups ++ source_ids i ds)
      × ((k : Text) → lookup k left ≢ none → (lookup k m ≢ none) × (¬ IsOneOf (source_ids i ds) k))
unfolding source_groups
source_groups-ids api_key i [] groups gs m left e =
    (ground (arith, append-nil (group_ids groups)), λ k h. (λ n. h (left_same k ∙ n), λ i. i))
  where
    left_same : (k : Text) → lookup k left ≡ lookup k m
    left_same k = let same : left ≡ m = ground arith in ap (λ x. lookup k x) same
source_groups-ids api_key i (d ∷ ds) groups gs m left e =
    elim (Option-cases (
      build_group (source_id i) (lit "Data source " ++ decimal i) (results_of (source_id i) m)
        api_key)) [
          | inl f ↦ absurd (ground arith)
          | inr (g, f) ↦
              let (ids, gone) =
                source_groups-ids api_key (suc i) ds (groups ++ g ∷ []) gs (delete (source_id i) m)
                  left (ground arith) in
              (
                ids
                    ∙ ap (λ x. x ++ source_ids (suc i) ds)
                        (group_ids-append groups g
                          ∙ ap (λ x. group_ids groups ++ x ∷ []) (build_group-id _ _ _ _ g f))
                    ∙ append_assoc (group_ids groups) (source_id i ∷ []) (source_ids (suc i) ds),
                λ k h.
                    let (there, others) = gone k h in
                    let (other, before) = lookup-deleted k (source_id i) m there in
                    (before, λ one. elim one [ inl same ↦ other same | inr i ↦ others i ]),
              )
        ]

-- A key of the map is the source of a result.
lookup-group_results :
    (k : Text) (rs : List Result) (m : GoMap (List Result))
    → lookup k (group_results rs m) ≢ none
    → Any (λ r. r.source ≡ k) rs ⊎ (lookup k m ≢ none)
unfolding group_results
lookup-group_results k [] m h = inr h
lookup-group_results k (r ∷ rs) m h =
    elim (lookup-group_results k rs (insert r.source (results_of r.source m ++ r ∷ []) m) h) [
      | inl i ↦ inl (inr i)
      | inr n ↦ elim (lookup-inserted k r.source (results_of r.source m ++ r ∷ []) m n) [
        | inl e ↦ inl (inl e)
        | inr before ↦ inr before
      ]
    ]

keys_of_empty : (m : GoMap (List Result)) → ((k : Text) → lookup k m ≡ none) → keys m ≡ []
unfolding keys lookup
keys_of_empty [] h = refl
keys_of_empty ((k, v) ∷ m) h = absurd (ground (arith, h k, text_eq_refl k))

placed_of :
    (ids : List Text) (k : Text) (rs : List Result)
    → All (IsPlaced ids) rs
    → Any (λ r. r.source ≡ k) rs
    → (k ≡ []) ⊎ IsOneOf ids k
placed_of ids k [] a i = absurd i
placed_of ids k (r ∷ rs) a (inl e) = elim a.0 [
  | inl n ↦ inl (sym e ∙ n)
  | inr i ↦ inr (subst (λ x. IsOneOf ids x) e i)
]
placed_of ids k (r ∷ rs) a (inr i) = placed_of ids k rs a.1 i

no_leftover :
    (api_key : Text) (left : GoMap (List Result)) (groups : List Group)
    → keys left ≡ []
    → leftover_groups api_key left (sort_strings (keys left)) groups ≡ some groups
unfolding leftover_groups sort_strings sort_stable
no_leftover api_key left groups e = rw e refl

-- No key is left.
all_gone :
    (ids : List Text) (results : List Result)
    → All (IsPlaced ids) results
    → (left : GoMap (List Result))
    → ((k : Text)
        → lookup k left ≢ none
        → (lookup k (delete [] (group_results results [])) ≢ none) × (¬ IsOneOf ids k))
    → (k : Text) → lookup k left ≡ none
unfolding lookup
all_gone ids results placed left gone k = elim (Option-cases (lookup k left)) [
  | inl e ↦ e
  | inr (rs, e) ↦
      let (there, other) = gone k (λ n. absurd (cc (e, n))) in
      let (named, before) = lookup-deleted k [] (group_results results []) there in
      elim (lookup-group_results k results [] before) [
        | inr n ↦ absurd (n refl)
        | inl i ↦ elim (placed_of ids k results placed i) [
          | inl empty ↦ absurd (named empty)
          | inr one ↦ absurd (other one)
        ]
      ]
]

-- If each result is for the whole server or for one of the configured sources, the document has one
-- group for the server and one for each source, in order, and no other.
pub build_groups-ids :
    (api_key : Text) (sources : List DataSource) (results : List Result) (gs : List Group)
    → All (IsPlaced (source_ids 0 sources)) results
    → build_groups api_key sources results ≡ some gs
    → group_ids gs ≡ lit "server" ∷ source_ids 0 sources
unfolding build_groups
build_groups-ids api_key sources results gs placed e =
    let m = group_results results [] in
    elim (Option-cases (build_group (lit "server") (lit "Server") (results_of [] m) api_key)) [
      | inl f ↦ absurd (ground arith)
      | inr (g, f) ↦ elim (Option-cases (source_groups api_key 0 sources (g ∷ [], delete [] m))) [
        | inl h ↦ absurd (ground arith)
        | inr ((groups, left), h) ↦
            let (ids, gone) =
              source_groups-ids api_key 0 sources (g ∷ []) groups (delete [] m) left h in
            let none_left =
              keys_of_empty left (all_gone (source_ids 0 sources) results placed left gone) in
            let last = no_leftover api_key left groups none_left in
            let same : groups ≡ gs = ground arith in
            ap group_ids (sym same)
            ∙ ids
            ∙ ap (λ x. x ∷ source_ids 0 sources) (build_group-id _ _ _ _ g f)
      ]
    ]
