-- ===== src/Report/Document/Tallies.antt =====
-- The groups of a document count every result of the report once.
use server_validator.Prelude.{
  ℕ, ◌+◌, ◌==◌, ◌≡◌, ◌≢◌, refl, Bool, true, false, List, [], ◌∷◌, ◌++◌, arith, none, some, All,
  All-append, if◌then◌else◌,
}
use server_validator.Text.{Text, text_eq_iff}
use server_validator.GoMap.{GoMap, lookup, insert, delete, lookup-insert, lookup-delete}
use server_validator.Validator.Status.{Status, pass, warn, fail, skip, other, Result}
use server_validator.Validator.Status.Severity.{Known}
use server_validator.Report.Document.{
  Counts, Group, add, item_of, fill, build_group, results_of, group_results, no_counts,
}

abbrev pub same : Status → Status → Bool
same pass s = elim s [ pass ↦ true | _ ↦ false ]
same warn s = elim s [ warn ↦ true | _ ↦ false ]
same fail s = elim s [ fail ↦ true | _ ↦ false ]
same skip s = elim s [ skip ↦ true | _ ↦ false ]
same (other n) s = elim s [ other m ↦ n == m | _ ↦ false ]

-- How many of the results have the status.
abbrev pub occurrences : Status → List Result → ℕ
occurrences q [] = 0
occurrences q (r ∷ rs) = (if same q r.status then 1 else 0) + occurrences q rs

-- What a tally says of a status.
abbrev pub count_of : Status → Counts → ℕ
count_of pass c = c.passes
count_of warn c = c.warns
count_of fail c = c.fails
count_of skip c = c.skips
count_of (other n) c = 0

count_of-add :
    (q s : Status) (c d : Counts)
    → add c s ≡ some d
    → count_of q d ≡ count_of q c + (if same q s then 1 else 0)
unfolding add
count_of-add pass s c d h = ground arith
count_of-add warn s c d h = ground arith
count_of-add fail s c d h = ground arith
count_of-add skip s c d h = ground arith
count_of-add (other n) s c d h = ground arith

add_known : (c : Counts) (s : Status) → ((n : ℕ) → s ≢ other n) → (d : Counts) × (add c s ≡ some d)
unfolding add
add_known c pass known = (_, refl)
add_known c warn known = (_, refl)
add_known c fail known = (_, refl)
add_known c skip known = (_, refl)
add_known c (other n) known = absurd (known n refl)

pub count_of-no_counts : (q : Status) → count_of q no_counts ≡ 0
count_of-no_counts pass = refl
count_of-no_counts warn = refl
count_of-no_counts fail = refl
count_of-no_counts skip = refl
count_of-no_counts (other n) = refl

occurrences-append :
    (q : Status) (xs ys : List Result)
    → occurrences q (xs ++ ys) ≡ occurrences q xs + occurrences q ys
occurrences-append q [] ys = omega arith
occurrences-append q (x ∷ xs) ys = ground (arith, occurrences-append q xs ys)

fill_lem :
    (api_key : Text) (rs : List Result) (g : Group)
    → All Known rs
    → (h : Group) × (fill api_key rs g ≡ some h)
      × ((q : Status) → count_of q h.counts ≡ count_of q g.counts + occurrences q rs)
unfolding fill
fill_lem api_key [] g known = (g, refl, λ q. omega arith)
fill_lem api_key (r ∷ rs) g known =
    let (c, e) = add_known g.counts r.status known.0 in
    let (h, f, rest) =
      fill_lem api_key rs (record g { counts = c; results = g.results ++ item_of api_key r ∷ [] })
        known.1 in
    (h, rw (e, fill) f, λ q. omega (arith, count_of-add q r.status g.counts c e, rest q))

pub build_group_lem :
    (id label : Text) (rs : List Result) (api_key : Text)
    → All Known rs
    → (h : Group) × (build_group id label rs api_key ≡ some h)
      × ((q : Status) → count_of q h.counts ≡ occurrences q rs)
unfolding build_group
build_group_lem id label rs api_key known =
    let (h, e, counted) =
      fill_lem api_key rs (record { id = id; label = label; counts = no_counts; results = [] })
        known in
    (h, e, λ q. omega (arith, counted q, count_of-no_counts q))

-- How many of the results of a map have the status, and of a list of groups.
abbrev pub map_occurrences : Status → GoMap (List Result) → ℕ
map_occurrences q [] = 0
map_occurrences q ((k, rs) ∷ m) = occurrences q rs + map_occurrences q m

abbrev pub groups_count : Status → List Group → ℕ
groups_count q [] = 0
groups_count q (g ∷ gs) = count_of q g.counts + groups_count q gs

pub groups_count-append :
    (q : Status) (xs : List Group) (g : Group)
    → groups_count q (xs ++ g ∷ []) ≡ groups_count q xs + count_of q g.counts
groups_count-append q [] g = omega arith
groups_count-append q (x ∷ xs) g = omega (arith, groups_count-append q xs g)

-- No key stands twice.
abbrev pub Distinct : GoMap (List Result) → Type 0
Distinct [] = Unit
Distinct ((k, rs) ∷ m) = (lookup k m ≡ none) × Distinct m

insert_lem :
    (q : Status) (k : Text) (rs : List Result) (m : GoMap (List Result))
    → map_occurrences q (insert k rs m) + occurrences q (results_of k m)
      ≡ map_occurrences q m + occurrences q rs
unfolding insert results_of lookup
insert_lem q k rs [] = omega arith
insert_lem q k rs ((j, ss) ∷ m) = ground (arith, insert_lem q k rs m)

insert-Distinct :
    (k : Text) (rs : List Result) (m : GoMap (List Result)) → Distinct m → Distinct (insert k rs m)
unfolding insert lookup
insert-Distinct k rs [] d = (refl, tt)
insert-Distinct k rs ((j, ss) ∷ m) d =
    ground (arith, insert-Distinct k rs m, lookup-insert j k rs m, text_eq_iff k j, text_eq_iff j k)

delete_absent : (k : Text) (m : GoMap (List Result)) → lookup k m ≡ none → delete k m ≡ m
unfolding delete lookup
delete_absent k [] e = refl
delete_absent k ((j, ss) ∷ m) e = ground (arith, delete_absent k m)

pub delete_lem :
    (q : Status) (k : Text) (m : GoMap (List Result))
    → Distinct m
    → map_occurrences q (delete k m) + occurrences q (results_of k m) ≡ map_occurrences q m
unfolding delete results_of lookup
delete_lem q k [] d = refl
delete_lem q k ((j, ss) ∷ m) d =
    ground (arith, delete_lem q k m d.1, delete_absent k m, text_eq_iff k j)

pub delete-Distinct : (k : Text) (m : GoMap (List Result)) → Distinct m → Distinct (delete k m)
unfolding delete lookup
delete-Distinct k [] d = tt
delete-Distinct k ((j, ss) ∷ m) d = ground (arith, delete-Distinct k m d.1, lookup-delete j k m)

-- Every result of the map has a named status.
abbrev pub AllKnown : GoMap (List Result) → Type 0
AllKnown m = (k : Text) → All Known (results_of k m)

pub group_results_lem :
    (q : Status) (rs : List Result) (m : GoMap (List Result))
    → map_occurrences q (group_results rs m) ≡ map_occurrences q m + occurrences q rs
unfolding group_results
group_results_lem q [] m = omega arith
group_results_lem q (r ∷ rs) m = omega (
  arith,
  group_results_lem q rs (insert r.source (results_of r.source m ++ r ∷ []) m),
  insert_lem q r.source (results_of r.source m ++ r ∷ []) m,
  occurrences-append q (results_of r.source m) (r ∷ []),
)

pub group_results-Distinct :
    (rs : List Result) (m : GoMap (List Result)) → Distinct m → Distinct (group_results rs m)
unfolding group_results
group_results-Distinct [] m d = d
group_results-Distinct (r ∷ rs) m d =
    group_results-Distinct rs (insert r.source (results_of r.source m ++ r ∷ []) m)
      (insert-Distinct r.source (results_of r.source m ++ r ∷ []) m d)

insert-AllKnown :
    (k : Text) (rs : List Result) (m : GoMap (List Result))
    → AllKnown m
    → All Known rs
    → AllKnown (insert k rs m)
unfolding results_of
insert-AllKnown k rs m known new j = ground (arith, lookup-insert j k rs m, known j)

pub delete-AllKnown : (k : Text) (m : GoMap (List Result)) → AllKnown m → AllKnown (delete k m)
unfolding results_of
delete-AllKnown k m known j = ground (arith, lookup-delete j k m, known j)

pub group_results-AllKnown :
    (rs : List Result) (m : GoMap (List Result))
    → All Known rs
    → AllKnown m
    → AllKnown (group_results rs m)
unfolding group_results
group_results-AllKnown [] m new known = known
group_results-AllKnown (r ∷ rs) m new known =
    let grown = results_of r.source m ++ r ∷ [] in
    group_results-AllKnown rs (insert r.source grown m) new.1 (
      insert-AllKnown r.source grown m known
        (All-append Known (results_of r.source m) (r ∷ []) (known r.source) (new.0, tt)))
