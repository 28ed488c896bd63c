-- ===== src/Examples/Sweeps.antt =====
-- Sweep passes that fail.
use ironqueue.Common.{◌+◌, ◌<◌, refl, true, false, [], ◌∷◌, length, arith}
use ironqueue.Sweeper.Leadership.{
  max_leader_sweep_failures, Leadership, granted, Encounter, clings, sweep_pass, count_pass, timed,
  sweep_operations, sweep_operations-clings,
}

abbrev broken_pass : Encounter
broken_pass = record {
  any = true;
  probed = true;
  acquisition = granted;
  succeeds = false;
  in_time = true;
}

abbrev leader : Leadership
leader = record { leading = true; failed_passes = 0 }

sweep_operations-clings_example :
    length (broken_pass ∷ broken_pass ∷ []) + leader.failed_passes < max_leader_sweep_failures
unfolding clings sweep_operations sweep_pass count_pass timed
sweep_operations-clings_example =
    sweep_operations-clings (broken_pass ∷ broken_pass ∷ []) leader (omega arith) refl
