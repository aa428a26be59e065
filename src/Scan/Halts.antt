-- ===== src/Scan/Halts.antt =====
-- Every page of a scan of a finite Drive lowers what is left to do, so the scan ends.
use gdom.Base.{
  ℕ, zero, suc, ◌≡◌, refl, ◌≤◌, ◌<◌, ◌+◌, min, succ_ℤ, String, List, [], ◌∷◌, map, Bool, true,
  false, Option, none, some, arith, length, take, drop, is_some, is_empty, subst, sym,
  take-append-drop, Result, ok, err, ap,
}
use gdom.Base.Rules.{
  Comes, Leads, bind_rule, return_rule, if_rule, read_rule, throw_rule, map_err_rule, any_rule,
  weaken,
}
use gdom.Base.Reorder.{total, total-append, total-IsReordered}
use gdom.Base.State.{◌>>=◌, handle, settle, throw}
use gdom.Store.Rows.{Tables}
use gdom.Scan.Types.{
  ScanError, ScanOutcome, ScanRun, WorkItem, DriveChildPage, work_of, of_tree_error,
}
use gdom.Scan.Roots.{commit, timestamp, emit_scan_progress}
use gdom.Scan.Page.{ScanState, commit_items, commit_folders, commit_cursor, apply_page}
use gdom.Scan.Run.{join_next, apply_wave, concurrency, scan_loop, start_scan, run_scan}
use gdom.Scan.Laws.{IsQuiet}
use gdom.Scan.Ends.{IsFinite, weight, unseen, discover_cost}

abbrev Anything : {S E : Type 0} → E → S → Type 0
Anything _ _ = Unit

-- An outcome or an error: the waves were enough.
abbrev pub is_answered : Result ScanError (Option ScanOutcome) → Bool
is_answered (ok none) = false
is_answered (ok (some _)) = true
is_answered (err _) = true

module _ {W : Type 0} (run : ScanRun W) (view : W → Tables)
    (listing : String → Option String → DriveChildPage) (quiet : IsQuiet run view listing)
    (finite : IsFinite listing) where
  -- What a state of the loop may still cost: a bound on the pages that are left.
  abbrev cost : List String → List WorkItem → ℕ
  cost visited pending = unseen finite.rank visited finite.ids + total (weight finite.rank) pending

  cursor_cost :
      (work : WorkItem) (next : Option String) (queue : List WorkItem) (w : W)
      → (listing work.folder_id work.page_token).next_page_token ≡ next
      → Leads Anything (commit_cursor run work.folder_id work.depth next queue) w (λ queue' _.
        suc (total (weight finite.rank) queue')
        ≤ weight finite.rank work + total (weight finite.rank) queue)
  unfolding commit_cursor
  cursor_cost work none queue w ended =
      bind_rule (any_rule (commit run _) w) (λ _ after _. return_rule _ (omega arith))
  cursor_cost work (some next) queue w more = bind_rule (any_rule (commit run _) w) (λ _ after _.
      return_rule _ (
        omega (
          arith,
          total-append (weight finite.rank) queue (
              record { folder_id = work.folder_id; page_token = some next; depth = work.depth }
              ∷ []),
          finite.shrinks work.folder_id work.page_token next more,
        )))

  page_cost :
      (work : WorkItem) (state : ScanState) (w : W)
      → Leads Anything
          (apply_page run work.folder_id work.depth (listing work.folder_id work.page_token) state)
          w
          (λ next _.
            suc (cost next.visited next.queue)
            ≤ weight finite.rank work + cost state.visited state.queue)
  unfolding apply_page
  page_cost work state w =
      let page = listing work.folder_id work.page_token in
      bind_rule (any_rule (timestamp run) w) (λ created_at timed _.
        bind_rule
          (discover_cost finite.rank run created_at (succ_ℤ work.depth) page.files state.visited
            finite.ids timed (finite.covers work.folder_id work.page_token))
          (λ found seen found_cost.
            bind_rule (any_rule (commit_items run _ _ _) seen) (λ rest batched _.
              bind_rule (any_rule (commit_folders run rest) batched) (λ _ committed _.
                bind_rule (cursor_cost work page.next_page_token state.queue committed refl)
                  (λ queue' after turned.
                    bind_rule (any_rule (emit_scan_progress run) after) (λ _ last _. return_rule _ (
                      omega (
                        arith,
                        found_cost,
                        turned,
                        total-append (weight finite.rank) queue'
                            (map work_of found.folder_checkpoints),
                      ))))))))

  joined_page :
      (work : WorkItem) (w : W)
      → Leads Anything
          (join_next run work)
          w
          (λ page _. page ≡ listing work.folder_id work.page_token)
  unfolding join_next
  joined_page work w = read_rule (run.task_panics work) _ (
      if_rule (run.task_panics work w) (λ _. throw_rule _ tt)
        (λ _.
          map_err_rule of_tree_error
            (weaken (quiet.pages work.folder_id work.page_token w) (λ page after q. q.1))
            (λ e after _. tt)))

  wave_cost :
      (works : List WorkItem) (state : ScanState) (w : W)
      → Leads Anything (apply_wave run works state) w (λ next _.
        total (λ _. 1) works + cost next.visited next.queue
        ≤ total (weight finite.rank) works + cost state.visited state.queue)
  unfolding apply_wave
  wave_cost [] state w = return_rule _ (omega arith)
  wave_cost (work ∷ works) state w = bind_rule (joined_page work w) (λ page joined listed.
      bind_rule
        (subst
          (λ p. Leads Anything (apply_page run work.folder_id work.depth p state) joined (λ next _.
            suc (cost next.visited next.queue)
            ≤ weight finite.rank work + cost state.visited state.queue))
          (sym listed) (page_cost work state joined))
        (λ next after once.
          weaken (wave_cost works next after) (λ last end rest. omega (arith, once, rest))))

  loop_ends :
      (waves : ℕ) (state : ScanState) (w : W)
      → cost state.visited state.queue < waves
      → Leads Anything (scan_loop run waves state) w (λ outcome _. is_some outcome ≡ true)
  unfolding scan_loop
  loop_ends zero state w room = ground (arith, room)
  loop_ends (suc waves) state w room =
      if_rule (is_empty state.queue) (λ _. return_rule _ refl)
        (λ some_left. read_rule run.pause _ (
          if_rule (run.pause w) (λ _. return_rule _ refl)
            (λ _.
              let n = min (length state.queue) (concurrency run) in
              let wave = run.join_order w (take n state.queue) in
              read_rule (λ v. run.join_order v (take n state.queue)) _
                (bind_rule (wave_cost wave (record state { queue = drop n state.queue }) w)
                  (λ next after spent. loop_ends waves next after (
                    omega (
                      arith,
                      room,
                      spent,
                      total-IsReordered (λ _. 1) (quiet.join_order w (take n state.queue)),
                      total-IsReordered (weight finite.rank)
                          (quiet.join_order w (take n state.queue)),
                      total-append (weight finite.rank) (take n state.queue) (drop n state.queue),
                      ap (total (weight finite.rank)) (take-append-drop n state.queue),
                      not_idle state.queue n some_left (omega arith),
                    )))))))
    where
      not_idle :
          (queue : List WorkItem) (n : ℕ)
          → is_empty queue ≡ false
          → n ≡ min (length queue) (concurrency run)
          → 1 ≤ total (λ _. 1) (take n queue)
      not_idle [] n left capped = ground (arith, left)
      not_idle (work ∷ queue) zero left capped = ground (arith, capped)
      not_idle (work ∷ queue) (suc n) left capped = omega arith

  -- A state of the loop from which so many waves are enough, or an error.
  abbrev waves_for : Result ScanError ScanState → ℕ
  waves_for (ok state) = suc (cost state.visited state.queue)
  waves_for (err e) = 0

  answered :
      (r : Result ScanError (Option ScanOutcome)) (after : W)
      → Comes Anything (λ outcome _. is_some outcome ≡ true) r after
      → is_answered r ≡ true
  answered (ok (some outcome)) after ended = refl
  answered (ok none) after ended = ground (arith, ended)
  answered (err e) after ended = refl

  started :
      (waves : ℕ) (r : Result ScanError ScanState) (after : W)
      → waves_for r ≤ waves
      → is_answered (settle r (scan_loop run waves) throw after).0 ≡ true
  unfolding settle throw
  started waves (ok state) after enough =
      answered (scan_loop run waves state after).0 (scan_loop run waves state after).1
        (loop_ends waves state after (omega (arith, enough))).comes
  started waves (err e) after enough = refl

  -- Of a Drive whose folders do not change, with finitely many files and finitely many pages of every
  -- folder, a scan ends in any world: from some number of waves on it answers, with an outcome or an
  -- error.
  pub run_scan-is_answered :
      (w : W)
      → (enough : ℕ) × ((waves : ℕ) → enough ≤ waves → is_answered (run_scan run waves w).0 ≡ true)
  unfolding run_scan ◌>>=◌ handle
  run_scan-is_answered w = (
    waves_for (start_scan run w).0,
    λ waves enough. started waves (start_scan run w).0 (start_scan run w).1 enough,
  )
