-- ===== src/Scan/Tests.antt =====
-- A scan of the small Drive, computed.
use gdom.Base.{arith, inl, [], ◌∷◌, ◌≡◌, ◌≤◌, ℕ, refl, true, some, ok}
use gdom.Scan.Types.{completed}
use gdom.Scan.Run.{run_scan}
use gdom.Base.State.{◌>>=◌, handle, settle, return, throw, map_err, reading, modify}
use gdom.Time.{iso_text}
use gdom.Item.State.{is_skipped}
use gdom.Classifier.{classify_drive_child, item_state, should_recurse}
use gdom.Store.Rows.{list_committed_file_ids, list_scan_checkpoints}
use gdom.Store.Aggregates.{item_aggregates, count_in_state}
use gdom.Store.Sqlite.{
  sqlite, commit_scan_batch, execute_batch, execute_items, execute_upserts, execute_deletes,
  end_transaction,
}
use gdom.Scan.Types.{work_of, of_tree_error, tree_error_of}
use gdom.Scan.Roots.{
  seed_roots, collect_roots, timestamp, collect_loop, fresh_id, push_root, child_of, item_of,
  recurses_into, checkpoint_of, persist_roots, persist_chunks, root_batch, emit_scan_progress,
  emit_progress,
}
use gdom.Scan.Page.{apply_page, discover, push_child, commit_items, commit_folders, commit_cursor}
use gdom.Scan.Run.{
  start_scan, visited_ids, open_checkpoints, read_again, scan_loop, apply_wave, join_next,
}
use gdom.Scan.TestDrive.{run, view, listing, store, quiet, finite, nothing, nothing-IsResumable}
use gdom.Scan.Complete.{have_items}
use gdom.Scan.Progress.{KeepsRows}
use gdom.Scan.Seeded.{CanResume}
use gdom.Scan.Resumption.{run_scan-CanResume, rerun-IsComplete}
use gdom.Scan.Safety.{IsComplete, Fits, rerun, run_scan-IsComplete, run_scan-have_items}
use gdom.Scan.Halts.{is_answered, run_scan-is_answered}

done : (run_scan run 5 nothing).0 ≡ ok (some completed)
unfolding run_scan start_scan visited_ids open_checkpoints read_again seed_roots collect_roots
    timestamp collect_loop fresh_id push_root child_of item_of recurses_into checkpoint_of
    persist_roots persist_chunks root_batch emit_scan_progress emit_progress scan_loop apply_wave
    join_next apply_page discover push_child commit_items commit_folders commit_cursor work_of
    of_tree_error tree_error_of sqlite commit_scan_batch execute_batch execute_items execute_upserts
    execute_deletes end_transaction list_committed_file_ids list_scan_checkpoints item_aggregates
    count_in_state ◌>>=◌ handle settle return throw map_err reading modify iso_text
    classify_drive_child item_state should_recurse is_skipped
done = refl

nothing-CanResume : CanResume 1 run.roots listing nothing
unfolding list_scan_checkpoints list_committed_file_ids
nothing-CanResume = record { sound = nothing-IsResumable; seeded = inl refl }

-- After one wave the scan is not done, and its tables can be resumed.
run_scan-CanResume_example :
    CanResume 1 run.roots listing (view (run_scan run 1 nothing).1)
    × (KeepsRows 1 nothing.items (view (run_scan run 1 nothing).1).items
        × Fits (run_scan run 1 nothing).0)
run_scan-CanResume_example =
    run_scan-CanResume run view listing store quiet 1 nothing (omega arith) nothing-CanResume

resumed :
    (run_scan run 5 (rerun run view listing store quiet (1 ∷ []) nothing)).0 ≡ ok (some completed)
unfolding run_scan start_scan visited_ids open_checkpoints read_again seed_roots collect_roots
    timestamp collect_loop fresh_id push_root child_of item_of recurses_into checkpoint_of
    persist_roots persist_chunks root_batch emit_scan_progress emit_progress scan_loop apply_wave
    join_next apply_page discover push_child commit_items commit_folders commit_cursor work_of
    of_tree_error tree_error_of sqlite commit_scan_batch execute_batch execute_items execute_upserts
    execute_deletes end_transaction list_committed_file_ids list_scan_checkpoints item_aggregates
    count_in_state ◌>>=◌ handle settle return throw map_err reading modify iso_text
    classify_drive_child item_state should_recurse is_skipped
resumed = refl

-- A scan that stopped after one wave is taken up again and completes.
rerun-IsComplete_example :
    let before = rerun run view listing store quiet (1 ∷ []) nothing in
    IsComplete 1 listing (view (run_scan run 5 before).1)
    × (have_items 1 run.roots (view (run_scan run 5 before).1) ≡ true)
rerun-IsComplete_example =
    rerun-IsComplete run view listing store quiet (1 ∷ []) 5 nothing (omega arith) nothing-CanResume
      resumed

run_scan-IsComplete_example : IsComplete 1 listing (view (run_scan run 5 nothing).1)
run_scan-IsComplete_example =
    run_scan-IsComplete run view listing store quiet 5 nothing nothing-IsResumable done

run_scan-have_items_example : have_items 1 run.roots (view (run_scan run 5 nothing).1) ≡ true
unfolding list_scan_checkpoints list_committed_file_ids
run_scan-have_items_example =
    run_scan-have_items run view listing store quiet 5 nothing nothing-IsResumable refl done

run_scan-is_answered_example :
    (enough : ℕ) × ((waves : ℕ)
      → enough ≤ waves
      → is_answered (run_scan run waves nothing).0 ≡ true)
run_scan-is_answered_example = run_scan-is_answered run view listing quiet finite nothing
