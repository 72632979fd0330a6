-- ===== src/Report/Document/Sources.antt =====
-- The map of a document holds for each source its results, in order.
use server_validator.Prelude.{
  ◌≡◌, Option-cases, inl, inr, sym, ◌∙◌, ap, List, [], ◌∷◌, ◌++◌, arith, some, map, if◌then◌else◌,
}
use mathlib.Core.List.{append-nil, append_assoc}
use server_validator.Text.{Text, text_eq, text_eq_iff}
use server_validator.GoMap.{GoMap, lookup, insert, lookup-insert}
use server_validator.Validator.Status.{Result}
use server_validator.Report.Document.{
  Group, results_of, group_results, fill, build_group, add, item_of, no_counts,
}

-- The results of a source.
abbrev pub from_source : Text → List Result → List Result
from_source k [] = []
from_source k (r ∷ rs) = if text_eq k r.source then r ∷ from_source k rs else from_source k rs

results_of-insert :
    (k : Text) (r : Result) (m : GoMap (List Result))
    → results_of k (insert r.source (results_of r.source m ++ r ∷ []) m)
      ≡ results_of k m ++ from_source k (r ∷ [])
unfolding results_of
results_of-insert k r m = ground (
  arith,
  lookup-insert k r.source (results_of r.source m ++ r ∷ []) m,
  text_eq_iff k r.source,
  append-nil (results_of k m),
)

from_source-append :
    (k : Text) (r : Result) (rs : List Result)
    → from_source k (r ∷ []) ++ from_source k rs ≡ from_source k (r ∷ rs)
from_source-append k r rs = ground arith

results_of-grouped :
    (k : Text) (rs : List Result) (m : GoMap (List Result))
    → results_of k (group_results rs m) ≡ results_of k m ++ from_source k rs
unfolding group_results
results_of-grouped k [] m = sym (append-nil (results_of k m))
results_of-grouped k (r ∷ rs) m =
    results_of-grouped k rs (insert r.source (results_of r.source m ++ r ∷ []) m)
    ∙ ap (λ xs. xs ++ from_source k rs) (results_of-insert k r m)
    ∙ append_assoc (results_of k m) (from_source k (r ∷ [])) (from_source k rs)
    ∙ ap (λ xs. results_of k m ++ xs) (from_source-append k r rs)

-- The loop over the results turns each into its item, and keeps the name of the group.
pub fill-items :
    (api_key : Text) (rs : List Result) (g h : Group)
    → fill api_key rs g ≡ some h
    → (h.results ≡ g.results ++ map (item_of api_key) rs) × (h.id ≡ g.id)
unfolding fill
fill-items api_key [] g h e = ground (arith, append-nil g.results)
fill-items api_key (r ∷ rs) g h e = elim (Option-cases (add g.counts r.status)) [
  | inl f ↦ absurd (ground arith)
  | inr (c, f) ↦
      let here = record g { counts = c; results = g.results ++ item_of api_key r ∷ [] } in
      let (items, named) = fill-items api_key rs here h (rw (← e) (ground arith)) in
      (items ∙ append_assoc g.results (item_of api_key r ∷ []) (map (item_of api_key) rs), named)
]

-- The group that is made for a source from the map of a report holds, in order, the items of the
-- results of that source, and no other.
pub build_group-items :
    (id label k api_key : Text) (results : List Result) (g : Group)
    → build_group id label (results_of k (group_results results [])) api_key ≡ some g
    → (g.id ≡ id) × (g.results ≡ map (item_of api_key) (from_source k results))
unfolding build_group results_of lookup
build_group-items id label k api_key results g e =
    let start : Group = record { id = id; label = label; counts = no_counts; results = [] } in
    let (items, named) = fill-items api_key (results_of k (group_results results [])) start g e in
    (named, items ∙ ap (map (item_of api_key)) (results_of-grouped k results []))
