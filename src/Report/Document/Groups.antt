-- ===== src/Report/Document/Groups.antt =====
-- The loops over the groups neither drop a result nor count one twice.
use server_validator.Prelude.{
  ℕ, suc, ◌+◌, ◌≡◌, refl, List, [], ◌∷◌, ◌++◌, arith, Option, none, some, All,
}
use server_validator.Text.{Text, lit, text_eq_iff, text_eq_refl}
use server_validator.GoMap.{GoMap, lookup, delete, keys}
use server_validator.Fmt.{decimal}
use server_validator.Sort.{place, sort_stable, sort_strings}
use server_validator.Config.{DataSource}
use server_validator.Validator.Status.{Status, Result}
use server_validator.Validator.Status.Severity.{Known}
use server_validator.Report.Document.{
  Group, results_of, group_results, source_id, source_groups, leftover_groups, build_groups,
}
use server_validator.Report.Document.Tallies.{
  occurrences, map_occurrences, groups_count, Distinct, AllKnown, build_group_lem,
  groups_count-append, delete_lem, delete-Distinct, delete-AllKnown, group_results_lem,
  group_results-Distinct, group_results-AllKnown,
}

-- What the loop over the data sources leaves.
abbrev Shared :
    List Group → GoMap (List Result) → Option (List Group × GoMap (List Result)) → Type 0
Shared groups m run =
    (gs : List Group) × (left : GoMap (List Result)) × (run ≡ some (gs, left))
    × AllKnown left
    × Distinct left
    × ((q : Status)
        → groups_count q gs + map_occurrences q left ≡ groups_count q groups + map_occurrences q m)

source_groups_lem :
    (api_key : Text) (i : ℕ) (ds : List DataSource) (groups : List Group) (m : GoMap (List Result))
    → AllKnown m
    → Distinct m
    → Shared groups m (source_groups api_key i ds (groups, m))
unfolding source_groups
source_groups_lem api_key i [] groups m known d = (groups, m, refl, known, d, λ q. refl)
source_groups_lem api_key i (x ∷ ds) groups m known d =
    let id = source_id i in
    let (g, e, counted) =
      build_group_lem id (lit "Data source " ++ decimal i) (results_of id m) api_key (known id) in
    let (gs, left, f, k, u, same_sum) =
      source_groups_lem api_key (suc i) ds (groups ++ g ∷ []) (delete id m)
        (delete-AllKnown id m known) (delete-Distinct id m d) in
    (
      gs,
      left,
      rw (e, source_groups) f,
      k,
      u,
      λ q.
          omega (arith, same_sum q, counted q, groups_count-append q groups g, delete_lem q id m d),
    )

-- The results of the keys.
abbrev key_occurrences : Status → List Text → GoMap (List Result) → ℕ
key_occurrences q [] m = 0
key_occurrences q (k ∷ ks) m = occurrences q (results_of k m) + key_occurrences q ks m

leftover_groups_lem :
    (api_key : Text) (m : GoMap (List Result)) (ks : List Text) (groups : List Group)
    → AllKnown m
    → (gs : List Group) × (leftover_groups api_key m ks groups ≡ some gs)
      × ((q : Status) → groups_count q gs ≡ groups_count q groups + key_occurrences q ks m)
unfolding leftover_groups
leftover_groups_lem api_key m [] groups known = (groups, refl, λ q. omega arith)
leftover_groups_lem api_key m (k ∷ ks) groups known =
    let (g, e, counted) = build_group_lem k k (results_of k m) api_key (known k) in
    let (gs, f, same_sum) = leftover_groups_lem api_key m ks (groups ++ g ∷ []) known in
    (
      gs,
      rw (e, leftover_groups) f,
      λ q. omega (arith, same_sum q, counted q, groups_count-append q groups g),
    )

key_occurrences-place :
    (q : Status) (k : Text) (ks : List Text) (m : GoMap (List Result))
    → key_occurrences q (place (λ s. s) k ks) m
      ≡ occurrences q (results_of k m) + key_occurrences q ks m
unfolding place
key_occurrences-place q k [] m = refl
key_occurrences-place q k (j ∷ ks) m = ground (arith, key_occurrences-place q k ks m)

key_occurrences-sort_strings :
    (q : Status) (ks : List Text) (m : GoMap (List Result))
    → key_occurrences q (sort_strings ks) m ≡ key_occurrences q ks m
unfolding sort_strings sort_stable
key_occurrences-sort_strings q [] m = refl
key_occurrences-sort_strings q (k ∷ ks) m =
    omega
      (arith, key_occurrences-place q k (sort_strings ks) m, key_occurrences-sort_strings q ks m)

-- The entries of one map are those that are looked up in another.
abbrev Found : GoMap (List Result) → GoMap (List Result) → Type 0
Found m = All (λ (e : Text × List Result). lookup e.0 m ≡ some e.1)

Found-cons :
    (j : Text) (rs : List Result) (m entries : GoMap (List Result))
    → lookup j m ≡ none
    → Found m entries
    → Found ((j, rs) ∷ m) entries
unfolding lookup
Found-cons j rs m [] fresh found = tt
Found-cons j rs m ((k, ss) ∷ entries) fresh found =
    (ground (arith, found.0, text_eq_iff k j), Found-cons j rs m entries fresh found.1)

Distinct-Found : (m : GoMap (List Result)) → Distinct m → Found m m
unfolding lookup
Distinct-Found [] d = tt
Distinct-Found ((j, rs) ∷ m) d =
    (ground (arith, text_eq_refl j), Found-cons j rs m m d.0 (Distinct-Found m d.1))

key_occurrences-keys :
    (q : Status) (m entries : GoMap (List Result))
    → Found m entries
    → key_occurrences q (keys entries) m ≡ map_occurrences q entries
unfolding keys results_of
key_occurrences-keys q m [] found = refl
key_occurrences-keys q m ((k, rs) ∷ entries) found =
    ground (arith, found.0, key_occurrences-keys q m entries found.1)

-- The groups of results of named statuses are built, and count for each status its results.
pub build_groups_lem :
    (api_key : Text) (sources : List DataSource) (results : List Result)
    → All Known results
    → (gs : List Group) × (build_groups api_key sources results ≡ some gs)
      × ((q : Status) → groups_count q gs ≡ occurrences q results)
unfolding build_groups results_of lookup
build_groups_lem api_key sources results known =
    let m = group_results results [] in
    let named : AllKnown m = group_results-AllKnown results [] known (λ k. tt) in
    let d : Distinct m = group_results-Distinct results [] tt in
    let (g, e, counted) =
      build_group_lem (lit "server") (lit "Server") (results_of [] m) api_key (named []) in
    let (gs, left, f, k, u, same_sum) =
      source_groups_lem api_key 0 sources (g ∷ []) (delete [] m) (delete-AllKnown [] m named)
        (delete-Distinct [] m d) in
    let (all, h, total) = leftover_groups_lem api_key left (sort_strings (keys left)) gs k in
    (
      all,
      rw (e, f, build_groups) h,
      λ q. omega (
        arith,
        counted q,
        same_sum q,
        total q,
        delete_lem q [] m d,
        group_results_lem q results [],
        key_occurrences-sort_strings q (keys left) left,
        key_occurrences-keys q left left (Distinct-Found left u),
      ),
    )
