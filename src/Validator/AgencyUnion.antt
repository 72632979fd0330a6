-- ===== src/Validator/AgencyUnion.antt =====
-- validator/check_agencies.go: the agencies of all static feeds against those that the API serves.
-- The sets of the source are lists of their keys; where it ranges over a map, the world gives the
-- order.
pub mod Coverage
use server_validator.Prelude.{
  Bool, true, false, not, ◌&&◌, List, [], ◌∷◌, ◌++◌, Option, none, some, if◌then◌else◌,
}
use server_validator.Text.{Text, lit, text_eq, is_empty}
use server_validator.GoMap.{GoMap, member, lookup, insert, keys}
use server_validator.Validator.Status.{Status, pass, warn, fail, text, Details, Result}
use server_validator.Validator.Redaction.{with_reason}
use server_validator.Validator.Context.{
  Agencies, Env, SourceContext, map_agency, usable, ValidationContext,
}
use server_validator.Validator.Endpoints.{agencies_reply}

pub record Expected : Type 0 where
  pub oba_id : Text
  gtfs_id : Text
  pub name : Text
  pub mapped : Bool

-- The keys of `apiSet`, each once.
unfoldable pub api_set : List Text → List Text
api_set [] = []
api_set (k ∷ ks) = let rest = api_set ks in if member k rest then rest else k ∷ rest

-- `apiNamesByID`, with the names so far.
unfoldable pub api_names : List (Text × Text) → GoMap Text → GoMap Text
api_names [] m = m
api_names ((id, name) ∷ rest) m = api_names rest (insert id name m)

-- `m[k]` of a map of strings.
unfoldable pub text_at : Text → GoMap Text → Text
text_at k m = elim (lookup k m) [ some v ↦ v | none ↦ [] ]

-- The inner loop over the agency ids of a source.
unfoldable pub expected_of : SourceContext → GoMap Text → List Text → List Expected
expected_of src names [] = []
expected_of src names (gid ∷ gids) =
    let (oba, mapped) = map_agency src gid in
    record { oba_id = oba; gtfs_id = gid; name = text_at gid names; mapped = mapped }
    ∷ expected_of src names gids

unfoldable pub expected_agencies : List SourceContext → List Expected
expected_agencies [] = []
expected_agencies (src ∷ rest) = elim src.static [
  | none ↦ expected_agencies rest
  | some p ↦ expected_of src p.agency_names p.agency_ids ++ expected_agencies rest
]

unfoldable pub agency_outcome : Status → Text → Details → Result
agency_outcome st msg det = record {
  check = lit "agency-union";
  source = [];
  status = st;
  message = msg;
  details = det;
}

module _ (env : Env) (vc : ValidationContext) where
  open env use {World}

  abbrev quote : Text → Text
  quote = env.fmt.quote

  -- The loop of `agencyHint` over the ids in the order of the range.
  unfoldable pub hint_among : Text → GoMap Text → List Text → List Text → Text
  hint_among gtfs_name names expected_set [] = []
  hint_among gtfs_name names expected_set (id ∷ ids) =
      if text_eq (text_at id names) gtfs_name && not (member id expected_set)
      then lit "API agency "
        ++ quote id
        ++ lit " is named "
        ++ quote gtfs_name
        ++ lit " — did you mean to map it?"
      else hint_among gtfs_name names expected_set ids

  unfoldable pub agency_hint : Text → GoMap Text → List Text → World → Text × World
  agency_hint gtfs_name names expected_set w =
      if is_empty gtfs_name
      then ([], w)
      else let (order, w') = env.range_keys (keys names) w in
        (hint_among gtfs_name names expected_set order, w')

  -- The result for an expected agency that the API does not serve.
  unfoldable pub not_served : Expected → Text → Result
  not_served e hint =
      let base = (lit "gtfsAgencyId", text e.gtfs_id) ∷ (lit "expectedObaId", text e.oba_id) ∷ [] in
      let det = if is_empty hint then base else base ++ (lit "hint", text hint) ∷ [] in
      if e.mapped
      then agency_outcome fail
          (lit "mapped agency "
            ++ quote e.gtfs_id
            ++ lit "→"
            ++ quote e.oba_id
            ++ lit " not served by API")
          det
      else agency_outcome warn
          (lit "assumed identity mapping "
            ++ quote e.gtfs_id
            ++ lit " not served by API; add an agencyMapping entry if it is remapped")
          det

  -- One round of the loop over the expected agencies; the agency is in the expected set already.
  unfoldable pub check_expected :
      List Text → GoMap Text → Expected → List Text → World → Result × World
  check_expected api names e expected_set w =
      let (hint, w') = agency_hint e.name names expected_set w in
      if member e.oba_id api
      then (
        agency_outcome pass
            (lit "agency " ++ quote e.gtfs_id ++ lit " present in API as " ++ quote e.oba_id) [],
        w,
      )
      else (not_served e hint, w')

  -- The loop: the results, the expected set and the world.
  unfoldable pub check_all_expected :
      List Text → GoMap Text → List Expected → List Text → World → List Result × List Text × World
  check_all_expected api names [] expected_set w = ([], expected_set, w)
  check_all_expected api names (e ∷ es) expected_set w =
      let grown = e.oba_id ∷ expected_set in
      let (r, w1) = check_expected api names e grown w in
      let (rs, all, w2) = check_all_expected api names es grown w1 in (r ∷ rs, all, w2)

  unfoldable pub unexpected : Text → Result
  unexpected id =
      agency_outcome warn
        (lit "API serves agency " ++ quote id ++ lit " not present in any configured GTFS feed")
        ((lit "apiAgencyId", text id) ∷ [])

  -- The loop over the ids of the API, in the order of the range.
  unfoldable pub report_unexpected : List Text → List Text → List Result
  report_unexpected expected_set [] = []
  report_unexpected expected_set (id ∷ ids) =
      let rest = report_unexpected expected_set ids in
      if not (member id expected_set) then unexpected id ∷ rest else rest

  unfoldable pub compare_agencies : Agencies → World → List Result × World
  compare_agencies answer w =
      let api = api_set answer.list in
      let names = api_names answer.references [] in
      let (rs, expected_set, w1) =
        check_all_expected api names (expected_agencies vc.sources) [] w in
      let (order, w2) = env.range_keys api w1 in (rs ++ report_unexpected expected_set order, w2)

  unfoldable pub run_agency_union : World → List Result × World
  run_agency_union w = elim (usable (agencies_reply vc)) [
    | none ↦ (
      agency_outcome fail
            (with_reason (lit "agencies-with-coverage unavailable") vc.agencies_err
              vc.config.api_key)
            []
          ∷ [],
      w,
    )
    | some answer ↦ compare_agencies answer w
  ]
