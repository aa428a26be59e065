-- ===== src/Scan/Run.antt =====
-- src-tauri/src/application/scanner.rs: `run_scan`.
use gdom.Base.{
  ℕ, zero, suc, String, List, [], ◌∷◌, map, true, ◌&&◌, Option, none, some, take, drop, min, length,
  is_empty, ltb, if◌then◌else◌,
}
use gdom.Base.State.{M, return, throw, reading, map_err, ◌>>=◌, ◌>>◌}
use gdom.Item.State.{ScanCheckpoint}
use gdom.Scan.Types.{
  ScanError, DriveTreeError, ScanOutcome, ScanRun, WorkItem, DriveChildPage, completed, paused,
  of_tree_error, work_of,
}
use gdom.Scan.Roots.{seed_roots, emit_scan_progress}
use gdom.Scan.Page.{ScanState, apply_page}

module _ {W : Type 0} (run : ScanRun W) where
  unfoldable pub visited_ids : M W ScanError (List String)
  visited_ids = map_err ScanError.store (run.store_port.list_committed_file_ids run.job_id)

  unfoldable pub open_checkpoints : M W ScanError (List ScanCheckpoint)
  open_checkpoints = map_err ScanError.store (run.store_port.list_scan_checkpoints run.job_id)

  -- What the task of a folder joins with.
  unfoldable pub join_next : WorkItem → M W ScanError DriveChildPage
  join_next work = do
    panicked ← reading (run.task_panics work)
    if panicked
        then throw (ScanError.drive DriveTreeError.transport)
        else map_err of_tree_error
            (run.drive_port.list_children run.source_token work.folder_id work.page_token)

  -- `while let Some(joined) = join_set.join_next().await`.
  unfoldable pub apply_wave : List WorkItem → ScanState → M W ScanError ScanState
  unfolding join_next
  apply_wave [] state = return state
  apply_wave (work ∷ works) state = do
    page ← join_next work
    next ← apply_page run work.folder_id work.depth page state
    apply_wave works next

  -- `run.concurrency.max(1)`.
  abbrev pub concurrency : ℕ
  concurrency = if ltb run.concurrency 1 then 1 else run.concurrency

  -- `while !queue.is_empty()`, for so many waves at most; `none` where these do not do.
  unfoldable pub scan_loop : ℕ → ScanState → M W ScanError (Option ScanOutcome)
  unfolding apply_wave
  scan_loop zero state = return none
  scan_loop (suc waves) state = if is_empty state.queue then return (some completed) else do
    stopped ← reading run.pause
    if stopped
        then return (some paused)
        else (let wave_size = min (length state.queue) concurrency in
            do
              wave ← reading (λ w. run.join_order w (take wave_size state.queue))
              next ← apply_wave wave (record state { queue = drop wave_size state.queue })
              scan_loop waves next)

  -- What the seeded tables hold, read again.
  unfoldable pub read_again : M W ScanError ScanState
  unfolding visited_ids open_checkpoints
  read_again = do
    visited ← visited_ids
    checkpoints ← open_checkpoints
    emit_scan_progress run
    return (record { visited = visited; queue = map work_of checkpoints })

  -- What the loop starts from: what an earlier run left, or the roots.
  unfoldable pub start_scan : M W ScanError ScanState
  unfolding visited_ids open_checkpoints read_again
  start_scan = do
    visited ← visited_ids
    checkpoints ← open_checkpoints
    if is_empty checkpoints && is_empty visited
        then (do seed_roots run true; read_again)
        else return (record { visited = visited; queue = map work_of checkpoints })

  unfoldable pub run_scan : ℕ → M W ScanError (Option ScanOutcome)
  unfolding start_scan scan_loop
  run_scan waves = do state ← start_scan; scan_loop waves state
