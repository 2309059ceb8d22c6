-- ===== src/Nat/Summary.antt =====
-- op-nat: what the summary of a run says of its tests.
use infra.Base.{
  ◌≡◌, ◌⊎◌, inl, inr, refl, sym, ap, ◌∙◌, Bool, true, false, ◌||◌, ◌&&◌, not, str_eq, Option, none,
  String, List, [], ◌∷◌, ◌++◌, Bool-cases, Option-cases, arith,
}
use infra.Base.Dict.{Dict, lookup}
use infra.Nat.{
  ResultType, failed, passed, skipped, Errors, Test, Validator, test, suite, gate, Validators, nil,
  cons, ValidatorResult, Results, none_left, more,
}
use infra.Nat.Run.{
  result_of, Tally, no_results, count, overall_of, params_or, tally, tested, run_test, run_tests,
  summed, unless_gate, is_gate, name_of, run, run_all, run_each, Row, result_rows, all_rows, start,
}

-- The row is of a test, and it failed.
unfoldable pub is_failed_test : Row → Bool
is_failed_test (type, id, failed, errors) = not (str_eq type "Suite") && not (str_eq type "Gate")
is_failed_test (type, id, passed, errors) = false
is_failed_test (type, id, skipped, errors) = false

unfoldable pub any_failed : List Row → Bool
unfolding is_failed_test
any_failed [] = false
any_failed (r ∷ rs) = is_failed_test r || any_failed rs

-- Failed, or else passed.
unfoldable pub verdict : Bool → ResultType
verdict true = failed
verdict false = passed

-- A result is that of the rows of tests below it.
IsTrue : ValidatorResult → Type 0
IsTrue r = result_of r ≡ verdict (any_failed (result_rows r))

AllTrue : Results → Type 0
AllTrue none_left = Unit
AllTrue (more r rs) = IsTrue r × AllTrue rs

any_failed-append : (as' bs : List Row) → any_failed (as' ++ bs) ≡ (any_failed as' || any_failed bs)
unfolding any_failed
any_failed-append [] bs = refl
any_failed-append (r ∷ as') bs = ground (arith, any_failed-append as' bs)

abbrev tally_of : Bool → Tally
unfolding verdict
tally_of b = record { overall = verdict b; has_skipped = false }

count-verdict : (b c : Bool) → count (verdict c) (tally_of b) ≡ tally_of (b || c)
unfolding count verdict
count-verdict true true = refl
count-verdict true false = refl
count-verdict false true = refl
count-verdict false false = refl

or_assoc : (a b c : Bool) → ((a || b) || c) ≡ (a || (b || c))
or_assoc a b c = ground arith

or_false : (a : Bool) → (a || false) ≡ a
or_false a = ground arith

tally-verdict :
    (rs : Results) (b : Bool)
    → AllTrue rs
    → tally rs (tally_of b) ≡ tally_of (b || any_failed (all_rows rs))
unfolding tally AllTrue IsTrue any_failed result_rows
tally-verdict none_left b h = ap tally_of (sym (or_false b))
tally-verdict (more r rs) b (one, h) =
    let c = any_failed (result_rows r) in
    rw (tally, one, count-verdict b c, tally-verdict rs (b || c) h)
      (ap tally_of (
        or_assoc b c (any_failed (all_rows rs))
        ∙ ap (λ x. b || x) (sym (any_failed-append (result_rows r) (all_rows rs)))))

overall_of-verdict : (b : Bool) → overall_of (tally_of b) ≡ verdict b
unfolding overall_of verdict
overall_of-verdict true = refl
overall_of-verdict false = refl

overall_of-tally :
    (rs : Results)
    → AllTrue rs
    → overall_of (tally rs no_results) ≡ verdict (any_failed (all_rows rs))
unfolding verdict
overall_of-tally rs h =
    ap overall_of (tally-verdict rs false h) ∙ overall_of-verdict (any_failed (all_rows rs))

tested-IsTrue : {S : Type 0} (id : String) (r : Bool × Errors × S) → IsTrue (tested id r).0
unfolding IsTrue tested any_failed verdict result_rows result_of
tested-IsTrue id (true, e, s) = refl
tested-IsTrue id (false, e, s) = refl

IsMany : String → Type 0
IsMany type = (str_eq type "Suite" ≡ true) ⊎ (str_eq type "Gate" ≡ true)

-- The row of a suite or a gate is not of a test.
IsMany-is_failed_test :
    (type id : String) (r : ResultType) (e : Errors)
    → IsMany type
    → is_failed_test (type, id, r, e) ≡ false
unfolding is_failed_test IsMany
IsMany-is_failed_test type id failed e (inl y) = rw y refl
IsMany-is_failed_test type id failed e (inr y) = ground (arith, y)
IsMany-is_failed_test type id passed e m = refl
IsMany-is_failed_test type id skipped e m = refl

summed-IsTrue :
    {S : Type 0} (id type : String) (out : Results × Errors × S)
    → IsMany type
    → AllTrue out.0
    → IsTrue (summed id type out).0
unfolding IsTrue summed any_failed result_rows result_of
summed-IsTrue id type (rs, errors, s) many h =
    rw (IsMany-is_failed_test type id (overall_of (tally rs no_results)) errors many)
      (overall_of-tally rs h)

module _ {P S : Type 0} where
  run_test-IsTrue : (t : Test P S) (params : Option P) (s : S) → IsTrue (run_test t params s).0
  unfolding run_test IsTrue any_failed verdict result_rows result_of
  run_test-IsTrue t params s = elim (Option-cases t.fn) [
    | inl e ↦ rw (run_test, e) refl
    | inr (fn, e) ↦ rw (run_test, e) (tested-IsTrue t.id (fn (params_or params t.default_params) s))
  ]

  run_tests-AllTrue :
      (ts : List (Test P S)) (params : Dict P) (s : S) → AllTrue (run_tests ts params s).0
  unfolding run_tests AllTrue
  run_tests-AllTrue [] params s = tt
  run_tests-AllTrue (t ∷ ts) params s =
      (run_test-IsTrue t (lookup t.id params) s, run_tests-AllTrue ts params _)

  unless_gate-AllTrue :
      (v : Validator P S) (here : S → ValidatorResult × Errors × S)
      (rest : S → Results × Errors × S) (s : S)
      → IsTrue (here s).0
      → ((s' : S) → AllTrue (rest s').0)
      → AllTrue (unless_gate v here rest s).0
  unfolding unless_gate AllTrue
  unless_gate-AllTrue v here rest s one others = elim (Bool-cases (is_gate v)) [
    | inl y ↦ rw (unless_gate, y) (others s)
    | inr n ↦ rw (unless_gate, n) (one, others _)
  ]

  mutual
    unfolding run AllTrue IsMany

    run-IsTrue : (v : Validator P S) (params : Option P) (s : S) → IsTrue (run v params s).0
    run-IsTrue (test t) params s = run_test-IsTrue t params s
    run-IsTrue (suite id ts ps) params s =
        summed-IsTrue id "Suite" (run_tests ts ps s) (inl refl) (run_tests-AllTrue ts ps s)
    run-IsTrue (gate id vs ps) params s =
        summed-IsTrue id "Gate" (run_all vs ps s) (inr refl) (run_all-AllTrue vs ps s)

    run_all-AllTrue : (vs : Validators P S) (ps : Dict P) (s : S) → AllTrue (run_all vs ps s).0
    run_all-AllTrue nil ps s = tt
    run_all-AllTrue (cons v vs) ps s =
        unless_gate-AllTrue v (run v (lookup (name_of v) ps)) (run_all vs ps) s
          (run-IsTrue v (lookup (name_of v) ps) s) (run_all-AllTrue vs ps)

  run_each-AllTrue : (vs : Validators P S) (s : S) → AllTrue (run_each vs s).0
  unfolding run_each AllTrue
  run_each-AllTrue nil s = tt
  run_each-AllTrue (cons v vs) s = (run-IsTrue v none s, run_each-AllTrue vs _)

-- The table that `Start` prints sums a run up as failed if it has a row of a test that failed, of any
-- suite or gate, or of a test without a function, and else as passed, never as skipped.
pub start-verdict :
    {P S : Type 0} (vs : Validators P S) (s : S)
    → (start vs s).1 ≡ verdict (any_failed (start vs s).0)
unfolding start
start-verdict vs s = overall_of-tally (run_each vs s).0 (run_each-AllTrue vs s)
