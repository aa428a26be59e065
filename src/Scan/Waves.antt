-- ===== src/Scan/Waves.antt =====
-- The waves of a scan, and what it leaves when it ends.
use gdom.Base.{
  ℕ, zero, suc, ◌≡◌, refl, min, inl, inr, String, List, [], ◌∷◌, ◌++◌, Bool, true, false, Option,
  none, some, arith, str_eq, length, take, drop, is_some, is_empty, subst, sym, any-append,
  take-append-drop, All-append, All-append_left, All-append_right, Bool-cases,
}
use gdom.Base.Rules.{Leads, bind_rule, return_rule, throw_rule, read_rule, map_err_rule, if_rule}
use gdom.Base.Reorder.{IsReordered, any-IsReordered, All-IsReordered}
use gdom.Item.State.{MigrationItem}
use gdom.Store.Rows.{Tables}
use gdom.Store.Lookups.{item_at, token_at}
use gdom.Scan.Types.{
  ScanOutcome, completed, paused, ScanRun, WorkItem, DriveTreeError, DriveChildPage, of_tree_error,
}
use gdom.Scan.Page.{ScanState}
use gdom.Scan.Run.{join_next, apply_wave, concurrency, scan_loop}
use gdom.Scan.Progress.{IsListed, is_folder_row}
use gdom.Scan.Laws.{IsScanStore, IsQuiet, is_oversized}
use gdom.Scan.Commits.{IsGood}
use gdom.Scan.Batches.{Stopped}
use gdom.Scan.Pages.{IsTracked, apply_page_rule}

abbrev pub is_completed : Option ScanOutcome → Bool
is_completed (some completed) = true
is_completed _ = false

module _ (job_id : ℕ) (listing : String → Option String → DriveChildPage) where
  -- A scan that completes has no checkpoint left and every folder listed to its end.
  pub record IsScanned (start after : Tables) (outcome : Option ScanOutcome) : Type 0 where
    pub good : IsGood job_id listing start after
    pub closed :
        is_completed outcome ≡ true
        → (folder_id : String) (row : MigrationItem)
        → item_at job_id folder_id after.items ≡ some row
        → is_folder_row row ≡ true
        → IsListed job_id listing after.items folder_id
    pub empty :
        is_completed outcome ≡ true
        → (folder_id : String) → is_some (token_at job_id folder_id after.checkpoints) ≡ false

  -- The loop splits the queue and takes its first part in another order.
  split-IsTracked :
      (start tables : Tables) (visited : List String) (queue wave : List WorkItem) (n : ℕ)
      → IsReordered (take n queue) wave
      → IsTracked job_id listing start tables visited queue
      → IsTracked job_id listing start tables visited (wave ++ drop n queue)
  split-IsTracked start tables visited queue wave n reordered tracked =
      let parts =
        subst (IsTracked job_id listing start tables visited) (sym (take-append-drop n queue))
          tracked in
      record {
        good = tracked.good;
        known = tracked.known;
        queued = λ f here. ground (
          arith,
          parts.queued f here,
          any-append (λ (w : WorkItem). str_eq w.folder_id f) (take n queue) (drop n queue),
          any-append (λ (w : WorkItem). str_eq w.folder_id f) wave (drop n queue),
          any-IsReordered (λ (w : WorkItem). str_eq w.folder_id f) reordered,
        );
        workable =
            All-append _ wave (drop n queue)
              (All-IsReordered _ reordered
                (All-append_left _ (take n queue) (drop n queue) parts.workable))
              (All-append_right _ (take n queue) (drop n queue) parts.workable);
      }

  ended-IsScanned :
      (start tables : Tables) (visited : List String)
      → IsTracked job_id listing start tables visited []
      → IsScanned start tables (some completed)
  ended-IsScanned start tables visited tracked = record {
    good = tracked.good;
    closed = λ _ folder_id row found is_folder.
        elim (tracked.good.sound.covered folder_id row found is_folder) [
          | inl here ↦ ground (arith, tracked.queued folder_id here)
          | inr listed ↦ listed
        ];
    empty = λ _ folder_id.
        elim (Bool-cases (is_some (token_at job_id folder_id tables.checkpoints))) [
          | inl here ↦ ground (arith, tracked.queued folder_id here)
          | inr gone ↦ gone
        ];
  }

  stopped-IsScanned :
      (start tables : Tables) (outcome : Option ScanOutcome)
      → is_completed outcome ≡ false
      → IsGood job_id listing start tables
      → IsScanned start tables outcome
  stopped-IsScanned start tables outcome stopped good = record {
    good = good;
    closed = λ ended. cc;
    empty = λ ended folder_id. cc;
  }

fits-of_tree_error : (e : DriveTreeError) → is_oversized (of_tree_error e) ≡ false
unfolding of_tree_error
fits-of_tree_error e = ground arith

module _ {W : Type 0} (run : ScanRun W) (view : W → Tables)
    (listing : String → Option String → DriveChildPage)
    (store : IsScanStore run.store_port run.job_id view) (quiet : IsQuiet run view listing)
    (start : Tables) where
  join_next_rule :
      (work : WorkItem) (w : W)
      → IsGood run.job_id listing start (view w)
      → Leads
          (Stopped run view listing start)
          (join_next run work)
          w
          (λ page after. (view after ≡ view w) × (page ≡ listing work.folder_id work.page_token))
  unfolding join_next
  join_next_rule work w good = read_rule (run.task_panics work) _ (
      if_rule (run.task_panics work w) (λ _. throw_rule _ (good, refl))
        (λ _.
          map_err_rule of_tree_error (quiet.pages work.folder_id work.page_token w)
            (λ e after failed.
              (subst (IsGood run.job_id listing start) (sym failed) good, fits-of_tree_error e))))

  apply_wave_rule :
      (works : List WorkItem) (state : ScanState) (w : W)
      → IsTracked run.job_id listing start (view w) state.visited (works ++ state.queue)
      → Leads
          (Stopped run view listing start)
          (apply_wave run works state)
          w
          (λ next after. IsTracked run.job_id listing start (view after) next.visited next.queue)
  unfolding apply_wave
  apply_wave_rule [] state w tracked = return_rule _ tracked
  apply_wave_rule (work ∷ works) state w tracked =
      bind_rule (join_next_rule work w tracked.good) (λ page joined listed.
        bind_rule
          (apply_page_rule run view listing store quiet start work page state works joined listed.1
            (subst
              (λ tables.
                IsTracked run.job_id listing start tables state.visited
                  (work ∷ (works ++ state.queue)))
              (sym listed.0) tracked))
          (λ next after tracked_after. apply_wave_rule works next after tracked_after))

  pub scan_loop_rule :
      (waves : ℕ) (state : ScanState) (w : W)
      → IsTracked run.job_id listing start (view w) state.visited state.queue
      → Leads
          (Stopped run view listing start)
          (scan_loop run waves state)
          w
          (λ outcome after. IsScanned run.job_id listing start (view after) outcome)
  unfolding scan_loop
  scan_loop_rule zero state w tracked =
      return_rule _ (stopped-IsScanned run.job_id listing start (view w) none refl tracked.good)
  scan_loop_rule (suc waves) state w tracked =
      if_rule (is_empty state.queue)
        (λ done. return_rule _ (
          ended-IsScanned run.job_id listing start (view w) state.visited (
            subst (IsTracked run.job_id listing start (view w) state.visited)
              (empty_queue state.queue done) tracked)))
        (λ _. read_rule run.pause _ (
          if_rule (run.pause w)
            (λ _.
              return_rule _ (
                stopped-IsScanned run.job_id listing start (view w) (some paused) refl
                  tracked.good))
            (λ _.
              let wave_size = min (length state.queue) (concurrency run) in
              read_rule (λ v. run.join_order v (take wave_size state.queue)) _
                (bind_rule
                  (apply_wave_rule (run.join_order w (take wave_size state.queue))
                    (record state { queue = drop wave_size state.queue }) w
                    (split-IsTracked run.job_id listing start (view w) state.visited state.queue
                      (run.join_order w (take wave_size state.queue)) wave_size
                      (quiet.join_order w (take wave_size state.queue)) tracked))
                  (λ next after. scan_loop_rule waves next after)))))
    where
      empty_queue : (queue : List WorkItem) → is_empty queue ≡ true → queue ≡ []
      empty_queue [] done = refl
      empty_queue (work ∷ works) done = cc
