-- ===== src/Report/Document/Redacted.antt =====
-- No message of a document shows the API key.
use server_validator.Prelude.{
  ℕ, suc, ◌≡◌, ◌≢◌, refl, false, List, [], ◌∷◌, ◌++◌, arith, some, Option-cases, inl, inr, All,
  All-append,
}
use server_validator.Text.{Text, lit}
use server_validator.Text.Search.{contains, Lacks}
use server_validator.Text.Replace.{star, contains-replace_all_self}
use server_validator.GoMap.{GoMap, keys, delete}
use server_validator.Sort.{sort_strings}
use server_validator.Fmt.{decimal}
use server_validator.Config.{DataSource, Config}
use server_validator.Feeds.Gtfs.{Time}
use server_validator.Validator.Status.{Result, Report}
use server_validator.Report.Document.{
  MetaSource, Document, Group, Item, add, redact_string, item_of, fill, build_group, results_of,
  source_id, source_groups, leftover_groups, group_results, build_groups, meta_source, meta_sources,
  build_meta, build_document, no_counts, build_summary,
}

contains-redact_string :
    (s api_key : Text)
    → api_key ≢ []
    → Lacks star api_key
    → contains (redact_string s api_key) api_key ≡ false
unfolding redact_string
contains-redact_string s [] n h = absurd (n refl)
contains-redact_string s (k ∷ ks) n h = contains-replace_all_self k ks s h

module _ (api_key : Text) (set : api_key ≢ []) (plain : Lacks star api_key) where
  -- The message of the item does not show the key.
  abbrev Clean : Item → Type 0
  Clean i = contains i.message api_key ≡ false

  abbrev AllClean : List Group → Type 0
  AllClean = All (λ g. All Clean g.results)

  item_of-Clean : (r : Result) → Clean (item_of api_key r)
  unfolding item_of
  item_of-Clean r = contains-redact_string r.message api_key set plain

  fill-Clean :
      (rs : List Result) (g h : Group)
      → fill api_key rs g ≡ some h
      → All Clean g.results
      → All Clean h.results
  unfolding fill
  fill-Clean [] g h e clean = ground (arith, clean)
  fill-Clean (r ∷ rs) g h e clean = elim (Option-cases (add g.counts r.status)) [
    | inl f ↦ absurd (ground arith)
    | inr (c, f) ↦
        fill-Clean rs (record g { counts = c; results = g.results ++ item_of api_key r ∷ [] }) h
          (rw (← e) (ground arith))
          (All-append Clean g.results (item_of api_key r ∷ []) clean (item_of-Clean r, tt))
  ]

  build_group-Clean :
      (id label : Text) (rs : List Result) (h : Group)
      → build_group id label rs api_key ≡ some h
      → All Clean h.results
  unfolding build_group
  build_group-Clean id label rs h e =
      fill-Clean rs (record { id = id; label = label; counts = no_counts; results = [] }) h e tt

  source_groups-Clean :
      (i : ℕ) (ds : List DataSource) (groups gs : List Group) (m left : GoMap (List Result))
      → source_groups api_key i ds (groups, m) ≡ some (gs, left)
      → AllClean groups
      → AllClean gs
  unfolding source_groups
  source_groups-Clean i [] groups gs m left e clean = rw (← same) clean
    where
      same : groups ≡ gs
      same = cc e
  source_groups-Clean i (d ∷ ds) groups gs m left e clean =
      let label = lit "Data source " ++ decimal i in
      elim (Option-cases (build_group (source_id i) label (results_of (source_id i) m) api_key)) [
        | inl f ↦ absurd (ground arith)
        | inr (g, f) ↦
            source_groups-Clean (suc i) ds (groups ++ g ∷ []) gs (delete (source_id i) m) left
              (rw (← e) (ground arith))
              (All-append (λ h. All Clean h.results) groups (g ∷ []) clean
                (build_group-Clean (source_id i) label (results_of (source_id i) m) g f, tt))
      ]

  leftover_groups-Clean :
      (m : GoMap (List Result)) (ks : List Text) (groups gs : List Group)
      → leftover_groups api_key m ks groups ≡ some gs
      → AllClean groups
      → AllClean gs
  unfolding leftover_groups
  leftover_groups-Clean m [] groups gs e clean = rw (← same) clean
    where
      same : groups ≡ gs
      same = cc e
  leftover_groups-Clean m (k ∷ ks) groups gs e clean =
      elim (Option-cases (build_group k k (results_of k m) api_key)) [
        | inl f ↦ absurd (ground arith)
        | inr (g, f) ↦ leftover_groups-Clean m ks (groups ++ g ∷ []) gs (rw (← e) (ground arith)) (
            All-append (λ h. All Clean h.results) groups (g ∷ []) clean
              (build_group-Clean k k (results_of k m) g f, tt))
      ]

  build_groups-Clean :
      (sources : List DataSource) (rs : List Result) (gs : List Group)
      → build_groups api_key sources rs ≡ some gs
      → AllClean gs
  unfolding build_groups
  build_groups-Clean sources rs gs e =
      let m = group_results rs [] in
      elim (Option-cases (build_group (lit "server") (lit "Server") (results_of [] m) api_key)) [
        | inl f ↦ absurd (ground arith)
        | inr (g, f) ↦ elim (Option-cases (source_groups api_key 0 sources (g ∷ [], delete [] m))) [
          | inl h ↦ absurd (ground arith)
          | inr ((groups, left), h) ↦
              leftover_groups-Clean left (sort_strings (keys left)) groups gs
                (rw (← e) (ground arith))
                (source_groups-Clean 0 sources (g ∷ []) groups (delete [] m) left h
                  (build_group-Clean (lit "server") (lit "Server") (results_of [] m) g f, tt))
        ]
      ]

  -- None of the URLs of the source shows the key.
  abbrev IsSafe : MetaSource → Type 0
  IsSafe s =
      (contains s.static_gtfs_feed_url api_key ≡ false)
      × (contains s.vehicle_positions_url api_key ≡ false)
      × (contains s.trip_updates_url api_key ≡ false)
      × (contains s.service_alerts_url api_key ≡ false)

  meta_sources-IsSafe : (i : ℕ) (ds : List DataSource) → All IsSafe (meta_sources api_key i ds)
  unfolding meta_sources meta_source
  meta_sources-IsSafe i [] = tt
  meta_sources-IsSafe i (d ∷ ds) = (
    (
      contains-redact_string d.static_gtfs_feed_url api_key set plain,
      contains-redact_string d.vehicle_positions_url api_key set plain,
      contains-redact_string d.trip_updates_url api_key set plain,
      contains-redact_string d.service_alerts_url api_key set plain,
    ),
    meta_sources-IsSafe (suc i) ds,
  )

-- Where the API key is not empty and has no star, a document shows it neither in the URL of the
-- server, nor in a URL of a data source, nor in the message of a result.
pub contains-build_document :
    (rfc3339 : Time → Text) (rep : Report) (cfg : Config) (now : Time) (doc : Document)
    → cfg.api_key ≢ []
    → Lacks star cfg.api_key
    → build_document rfc3339 rep cfg now ≡ some doc
    → (contains doc.meta.oba_server_url cfg.api_key ≡ false)
      × All
          (λ s.
            (contains s.static_gtfs_feed_url cfg.api_key ≡ false)
            × (contains s.vehicle_positions_url cfg.api_key ≡ false)
            × (contains s.trip_updates_url cfg.api_key ≡ false)
            × (contains s.service_alerts_url cfg.api_key ≡ false))
          doc.meta.data_sources
      × All (λ g. All (λ i. contains i.message cfg.api_key ≡ false) g.results) doc.groups
unfolding build_document build_meta
contains-build_document rfc3339 rep cfg now doc set plain e =
    elim (Option-cases (build_groups cfg.api_key cfg.data_sources rep.results)) [
      | inl f ↦ absurd (ground arith)
      | inr (gs, f) ↦
          let same : doc ≡ record {
            schema_version = lit "1.0";
            meta = build_meta rfc3339 cfg now;
            summary = build_summary rep gs;
            groups = gs;
          } =
            ground arith in
          rw same (
            contains-redact_string cfg.oba_server_url cfg.api_key set plain,
            meta_sources-IsSafe cfg.api_key set plain 0 cfg.data_sources,
            build_groups-Clean cfg.api_key set plain cfg.data_sources rep.results gs f,
          )
    ]
