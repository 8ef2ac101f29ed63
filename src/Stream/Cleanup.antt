-- ===== src/Stream/Cleanup.antt =====
-- `run_single_query` as a whole (run_eval.py): the command file that it writes, the process that it
-- starts, and the `finally` blocks that take both away.
use my_besu_net.Base.{ℕ, Bool, true, false, List, [], Option, ◌≡◌, if◌then◌else◌, arith}
use my_besu_net.Base.Text.{Text}
use my_besu_net.Json.{Value, os_error}
use my_besu_net.Stream.Query.{Round, Outcome, failed, read_loop}
use my_besu_net.Stream.Scan.{initial}

-- What the query leaves in the world: its command file, and its process.
pub record World : Type 0 where
  pub command_file : Bool
  pub running : Bool

-- How the steps before the loop end: `mkdir` raises, `write_text` raises (and leaves a file behind
-- or not), `Popen` raises, or the process has started.
pub data Setup : Type 0 where
  mkdir_fails : Setup
  write_fails : Bool → Setup
  popen_fails : Setup
  started : Setup

-- the inner `finally`: `process.poll()` sees whether the process still runs
unfoldable pub reap : World → World
reap w = if w.running then record w { running = false } else w

-- the outer `finally`
unfoldable pub unlink : World → World
unlink w = if w.command_file then record w { command_file = false } else w

module _ {N : Type 0} (loads : Text → Option (Value N)) (decode : List ℕ → Text) where
  -- `outlives` says whether the process is still alive when the loop is left.
  unfoldable pub run_single_query : Text → Setup → List Round → Bool → World → Outcome × World
  unfolding reap unlink read_loop
  run_single_query clean_name mkdir_fails rounds outlives w = (failed os_error, unlink w)
  run_single_query clean_name (write_fails partial) rounds outlives w =
      (failed os_error, unlink (record w { command_file = partial }))
  run_single_query clean_name popen_fails rounds outlives w =
      (failed os_error, unlink (record w { command_file = true }))
  run_single_query clean_name started rounds outlives w =
      let result = read_loop loads decode clean_name rounds [] (initial clean_name) in
      (result, unlink (reap (record w { command_file = true; running = outlives })))

  -- Whatever fails, whatever the stream holds and however the loop is left, the query leaves no
  -- command file and no running process, if none ran before.
  pub run_single_query-clean :
      (clean_name : Text) (setup : Setup) (rounds : List Round) (outlives : Bool) (w : World)
      → w.running ≡ false
      → let after = (run_single_query clean_name setup rounds outlives w).1 in
        (after.command_file ≡ false) × (after.running ≡ false)
  unfolding run_single_query
  run_single_query-clean clean_name mkdir_fails rounds outlives w h = ground arith
  run_single_query-clean clean_name _ rounds outlives w h = ground arith
