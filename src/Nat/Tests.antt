-- ===== src/Nat/Tests.antt =====
-- A gate with a suite of two tests, one of which fails, and with a gate, which does not run.
use infra.Base.{ℕ, ◌+◌, ◌≡◌, refl, Bool, true, false, none, some, String, [], ◌∷◌}
use infra.Nat.{Test, failed, test, suite, gate, Validators, nil, cons}
use infra.Nat.Run.{start}
use infra.Nat.Summary.{any_failed, verdict, start-verdict}

abbrev named : String → Bool → Test ℕ ℕ
named id ok = record { id = id; default_params = none; fn = some (λ p s. (ok, [], s + 1)) }

abbrev nameless : Test ℕ ℕ
nameless = record { id = "x"; default_params = none; fn = none }

abbrev validators : Validators ℕ ℕ
validators =
    cons
      (gate "alphanet"
        (cons (suite "transfers" (named "one" true ∷ named "two" false ∷ []) [])
          (cons (gate "inner" (cons (test nameless) nil) []) nil))
        [])
      nil

start_lem : (start validators 0).1 ≡ failed
unfolding start
start_lem = refl

start-verdict_example : (start validators 0).1 ≡ verdict (any_failed (start validators 0).0)
start-verdict_example = start-verdict validators 0
