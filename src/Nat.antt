-- ===== src/Nat.antt =====
-- op-nat: gates, suites and tests, and what a run of them comes to (`gate.go`, `suite.go`, `test.go`,
-- `validator.go`, `nat.go`).
--
-- A test is a function of its parameters that steps the state of the networks that it acts on.
-- Parameters are of the type `P`, nil is `none`. An error is the list of the texts that it joins. A
-- field of the type `Validator` is not nil. Logs, metrics and the identity of a run are left out.
pub mod Run
pub mod Summary
mod Tests
use infra.Base.{Bool, true, false, Option, none, some, String, List, [], ◌∷◌}
use infra.Base.Dict.{Dict}

pub data ResultType : Type 0 where
  failed : ResultType
  passed : ResultType
  skipped : ResultType

abbrev pub Errors : Type 0
Errors = List String

pub record Test (P S : Type 0) : Type 0 where
  pub id : String
  pub default_params : Option P
  pub fn : Option (Option P → S → Bool × Errors × S)

mutual
  -- A validator is a test, a suite with its tests and their parameters, or a gate with its validators
  -- and theirs.
  pub data Validator (P S : Type 0) : Type 0 where
    test : Test P S → Validator P S
    suite : String → List (Test P S) → Dict P → Validator P S
    gate : String → Validators P S → Dict P → Validator P S

  pub data Validators (P S : Type 0) : Type 0 where
    nil : Validators P S
    cons : Validator P S → Validators P S → Validators P S

mutual
  -- ID, type, result, errors and the results below.
  pub data ValidatorResult : Type 0 where
    of : String → String → ResultType → Errors → Results → ValidatorResult

  pub data Results : Type 0 where
    none_left : Results
    more : ValidatorResult → Results → Results
