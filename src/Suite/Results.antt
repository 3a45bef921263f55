-- ===== src/Suite/Results.antt =====
-- The unit tests of to_check_result in src/checker.rs.
use porcupine_rust.Base.{◌≡◌, refl, Bool, true, false, some, [], ◌∷◌, replicate}
use porcupine_rust.Types.{CheckResult}
use porcupine_rust.Parallel.{to_check_result}
use porcupine_rust.Suite.{is_result}

abbrev illegal_takes_priority_over_unknown : Bool
illegal_takes_priority_over_unknown =
    is_result CheckResult.illegal (some (to_check_result false true true))

abbrev unknown_when_only_timer_fired : Bool
unknown_when_only_timer_fired =
    is_result CheckResult.unknown (some (to_check_result false true false))

abbrev ok_when_dfs_completed_cleanly : Bool
ok_when_dfs_completed_cleanly = is_result CheckResult.ok (some (to_check_result true false false))

abbrev illegal_when_dfs_finished_no_timeout : Bool
illegal_when_dfs_finished_no_timeout =
    is_result CheckResult.illegal (some (to_check_result false false false))

-- All of them pass.
results_pass :
    (illegal_takes_priority_over_unknown ∷ unknown_when_only_timer_fired
      ∷ ok_when_dfs_completed_cleanly ∷ illegal_when_dfs_finished_no_timeout ∷ [])
    ≡ replicate 4 true
unfolding to_check_result
results_pass = refl
