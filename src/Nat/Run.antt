-- ===== src/Nat/Run.antt =====
-- op-nat: `Test.Run`, `Suite.Run`, `Gate.Run`, and `Start` with the table that it prints.
use infra.Base.{Bool, true, false, Option, none, some, String, List, [], ◌∷◌, ◌++◌, if◌then◌else◌}
use infra.Base.Dict.{Dict, lookup}
use infra.Nat.{
  ResultType, failed, passed, skipped, Errors, Test, Validator, test, suite, gate, Validators, nil,
  cons, ValidatorResult, of, Results, none_left, more,
}

-- `ResultTypeFromBool`
unfoldable pub result_type_from_bool : Bool → ResultType
result_type_from_bool true = passed
result_type_from_bool false = failed

unfoldable pub result_of : ValidatorResult → ResultType
result_of (of id type result errors sub) = result

-- The variables of the loops over results: `overallResult` and `hasSkipped`.
pub record Tally : Type 0 where
  pub overall : ResultType
  pub has_skipped : Bool

abbrev pub no_results : Tally
no_results = record { overall = passed; has_skipped = false }

-- What one result changes.
unfoldable pub count : ResultType → Tally → Tally
count failed t = record t { overall = failed }
count skipped t = record t { has_skipped = true }
count passed t = t

-- The result after the loop.
unfoldable pub overall_of : Tally → ResultType
overall_of t = elim t.overall [
  | failed ↦ failed
  | skipped ↦ skipped
  | passed ↦ if t.has_skipped then skipped else passed
]

-- The loop over results.
unfoldable pub tally : Results → Tally → Tally
unfolding count result_of
tally none_left t = t
tally (more r rs) t = tally rs (count (result_of r) t)

-- The parameters that are given, or the default.
unfoldable pub params_or : {P : Type 0} → Option P → Option P → Option P
params_or none d = d
params_or (some p) d = some p

unfoldable pub tested : {S : Type 0} → String → Bool × Errors × S → ValidatorResult × Errors × S
unfolding result_type_from_bool
tested id (res, errors, s) = (of id "Test" (result_type_from_bool res) errors none_left, errors, s)

-- The results of a loop, in order, with the joined errors.
abbrev pub then_more :
    {S : Type 0} → ValidatorResult × Errors × S → (S → Results × Errors × S) → Results × Errors × S
then_more (r, e, s) k = let (rs, es, s') = k s in (more r rs, e ++ es, s')

-- The result of a suite or a gate, which returns no error beside it.
unfoldable pub summed :
    {S : Type 0} → String → String → Results × Errors × S → ValidatorResult × Errors × S
unfolding overall_of tally
summed id type (rs, errors, s) = (of id type (overall_of (tally rs no_results)) errors rs, [], s)

module _ {P S : Type 0} where
  -- `Test.Run`
  unfoldable pub run_test : Test P S → Option P → S → ValidatorResult × Errors × S
  unfolding params_or tested
  run_test t params s = elim t.fn [
    | none ↦ (of "" "" failed [] none_left, "test function is nil" ∷ [], s)
    | some fn ↦ tested t.id (fn (params_or params t.default_params) s)
  ]

  -- The loop of `Suite.Run`.
  unfoldable pub run_tests : List (Test P S) → Dict P → S → Results × Errors × S
  unfolding run_test lookup
  run_tests [] params s = (none_left, [], s)
  run_tests (t ∷ ts) params s = then_more (run_test t (lookup t.id params) s) (run_tests ts params)

  unfoldable pub is_gate : Validator P S → Bool
  is_gate (gate id vs params) = true
  is_gate (suite id ts params) = false
  is_gate (test t) = false

  -- `Name`
  unfoldable pub name_of : Validator P S → String
  name_of (gate id vs params) = id
  name_of (suite id ts params) = id
  name_of (test t) = t.id

  -- A step of the loop of `Gate.Run`, which passes over gates.
  unfoldable pub unless_gate :
      Validator P S
      → (S → ValidatorResult × Errors × S)
      → (S → Results × Errors × S)
      → S
      → Results × Errors × S
  unfolding is_gate
  unless_gate v here rest s = elim (is_gate v) [ true ↦ rest s | false ↦ then_more (here s) rest ]

  unfoldable mutual
    unfolding run_test run_tests unless_gate name_of summed lookup

    -- `Run` of a validator.
    pub run : Validator P S → Option P → S → ValidatorResult × Errors × S
    run (test t) params s = run_test t params s
    run (suite id ts params) _ s = summed id "Suite" (run_tests ts params s)
    run (gate id vs params) _ s = summed id "Gate" (run_all vs params s)

    -- The loop of `Gate.Run`.
    pub run_all : Validators P S → Dict P → S → Results × Errors × S
    run_all nil params s = (none_left, [], s)
    run_all (cons v vs) params s =
        unless_gate v (run v (lookup (name_of v) params)) (run_all vs params) s

  -- The loop of `Start`, which has no parameters for its validators.
  unfoldable pub run_each : Validators P S → S → Results × Errors × S
  unfolding run
  run_each nil s = (none_left, [], s)
  run_each (cons v vs) s = then_more (run v none s) (run_each vs)

-- A row of the table: type, ID, result and errors.
abbrev pub Row : Type 0
Row = String × String × ResultType × Errors

unfoldable mutual
  -- `appendResultRows`
  pub result_rows : ValidatorResult → List Row
  result_rows (of id type result errors sub) = (type, id, result, errors) ∷ all_rows sub

  pub all_rows : Results → List Row
  all_rows none_left = []
  all_rows (more r rs) = result_rows r ++ all_rows rs

-- The table that `Start` prints: its rows, and its summary.
unfoldable pub start : {P S : Type 0} → Validators P S → S → List Row × ResultType
unfolding run_each overall_of tally all_rows
start vs s = let (rs, errors, s') = run_each vs s in (all_rows rs, overall_of (tally rs no_results))
