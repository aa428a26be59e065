-- ===== src/Scan/Pages.antt =====
-- One page, from its folder's place in the queue to what it adds there.
use gdom.Base.{
  ℕ, ◌≡◌, refl, inr, succ_ℤ, String, List, [], ◌∷◌, ◌++◌, map, true, Option, none, some, arith,
  str_eq, length, is_some, subst, sym, ◌∙◌, any-append, All-append, All-append_left,
  All-append_right, All-map, all-implies,
}
use gdom.Base.State.{return, handle}
use gdom.Transfer.Types.{JobRuntimeEvent}
use gdom.Base.Rules.{Leads, bind_rule, return_rule, handle_rule, modify_rule}
use gdom.Item.State.{MigrationItem, ScanCheckpoint}
use gdom.Drive.Types.{DriveChild}
use gdom.Store.Rows.{Tables}
use gdom.Store.Lookups.{token_at, has_item, has_item-kept}
use gdom.Scan.Types.{ScanError, ScanRun, WorkItem, DriveChildPage, work_of}
use gdom.Scan.Roots.{contains, emit_progress, emit_scan_progress}
use gdom.Scan.Page.{ScanState, Findings, apply_page}
use gdom.Scan.Progress.{IsReached, first, IsReached-KeepsRows}
use gdom.Scan.Laws.{IsScanStore, IsQuiet}
use gdom.Scan.Found.{has_checkpoint, AreFresh, IsFound, timestamp_rule, discover_rule}
use gdom.Scan.Commits.{IsGood, IsCommitted}
use gdom.Scan.Batches.{Stopped, commit_items_rule}
use gdom.Scan.Cursor.{has_work, AreWorkable, IsTurned, commit_folders_rule, commit_cursor_rule}

module _ (job_id : ℕ) (listing : String → Option String → DriveChildPage) where
  -- What holds between two pages of the loop: `pending` is the work that is left.
  pub record IsTracked (start tables : Tables) (visited : List String) (pending : List WorkItem)
      : Type 0 where
    pub good : IsGood job_id listing start tables
    pub known : (f : String) → contains visited f ≡ true → has_item job_id tables.items f ≡ true
    pub queued :
        (f : String)
        → is_some (token_at job_id f tables.checkpoints) ≡ true
        → has_work f pending ≡ true
    pub workable : AreWorkable job_id listing tables.items pending

  pub has_work-work_of :
      (f : String) (checkpoints : List ScanCheckpoint)
      → has_work f (map work_of checkpoints) ≡ has_checkpoint f checkpoints
  unfolding work_of
  has_work-work_of f [] = refl
  has_work-work_of f (checkpoint ∷ checkpoints) = ground (arith, has_work-work_of f checkpoints)

  fresh-AreWorkable :
      (rows : List MigrationItem) (checkpoints : List ScanCheckpoint)
      → AreFresh checkpoints
      → AreWorkable job_id listing rows (map work_of checkpoints)
  unfolding work_of
  fresh-AreWorkable rows [] fresh = tt
  fresh-AreWorkable rows (checkpoint ∷ checkpoints) fresh = (
    subst (IsReached job_id listing rows checkpoint.folder_id) (sym fresh.0) first,
    fresh-AreWorkable rows checkpoints fresh.1,
  )

  -- Every file that the page has is stored once its items are.
  stored_page :
      (start before after : Tables) (children : List DriveChild) (visited : List String)
      (found : Findings) (folders rest : List ScanCheckpoint)
      → ((f : String) → contains visited f ≡ true → has_item job_id before.items f ≡ true)
      → IsFound children visited found
      → IsCommitted job_id listing start before after found.discovered folders rest
      → (f : String) → contains found.visited f ≡ true
      → has_item job_id after.items f ≡ true
  stored_page start before after children visited found folders rest known is_found done f seen =
      ground (
        arith,
        known f,
        is_found.known f seen,
        done.stored f,
        has_item-kept job_id before.items after.items f (done.kept f),
      )

  then_folders :
      (start before middle after : Tables) (items : List MigrationItem)
      (folders rest : List ScanCheckpoint)
      → IsCommitted job_id listing start before middle items folders rest
      → IsCommitted job_id listing start middle after [] rest []
      → IsCommitted job_id listing start before after items folders []
  then_folders start before middle after items folders rest first_ last = record {
    good = last.good;
    kept = λ f row found. last.kept f row (first_.kept f row found);
    stored = λ f found.
        has_item-kept job_id middle.items after.items f (last.kept f) (first_.stored f found);
    tokens = λ f found. ground (arith, last.tokens f found, first_.tokens f, first_.left f);
    fresh = tt;
    left = λ f h. ground arith;
  }

  -- The parts of a page, one after the other.
  applied-IsTracked :
      (start before batched after : Tables) (work : WorkItem) (works queue queue' : List WorkItem)
      (visited : List String) (found : Findings)
      → IsTracked start before visited (work ∷ (works ++ queue))
      → AreFresh found.folder_checkpoints
      → ((f : String) → contains found.visited f ≡ true → has_item job_id batched.items f ≡ true)
      → IsCommitted job_id listing start before batched found.discovered found.folder_checkpoints []
      → IsTurned job_id listing start batched after work.folder_id queue queue'
      → IsTracked start after found.visited
          (works ++ (queue' ++ map work_of found.folder_checkpoints))
  applied-IsTracked start before batched after work works queue queue' visited found tracked fresh
        stored done turned =
      record {
        good = turned.good;
        known = λ f seen.
            has_item-kept job_id batched.items after.items f (turned.kept f) (stored f seen);
        queued = λ f here. ground (
          arith,
          turned.queued f here,
          turned.grows f,
          done.tokens f,
          tracked.queued f,
          has_work-work_of f found.folder_checkpoints,
          any-append (λ (w : WorkItem). str_eq w.folder_id f) works queue,
          any-append (λ (w : WorkItem). str_eq w.folder_id f) works
              (queue' ++ map work_of found.folder_checkpoints),
          any-append (λ (w : WorkItem). str_eq w.folder_id f) queue'
              (map work_of found.folder_checkpoints),
        );
        workable =
            (let lifted =
                All-map _ _ (works ++ queue)
                  (λ (w : WorkItem) at_.
                    IsReached-KeepsRows job_id listing turned.kept
                      (IsReached-KeepsRows job_id listing done.kept at_))
                  tracked.workable.1 in
              All-append _ works (queue' ++ map work_of found.folder_checkpoints)
                (All-append_left _ works queue lifted)
                (All-append _ queue' (map work_of found.folder_checkpoints)
                  (turned.workable (All-append_right _ works queue lifted))
                  (fresh-AreWorkable after.items found.folder_checkpoints fresh)));
      }

module _ {W : Type 0} (run : ScanRun W) (view : W → Tables)
    (listing : String → Option String → DriveChildPage)
    (store : IsScanStore run.store_port run.job_id view) (quiet : IsQuiet run view listing) where
  pub emit_scan_progress_rule :
      {R : ScanError → W → Type 0} (w : W)
      → Leads R (emit_scan_progress run) w (λ _ after. view after ≡ view w)
  unfolding emit_scan_progress emit_progress
  emit_scan_progress_rule {R = R} w = emits run.events refl
    where
      emits :
          (events : Option (JobRuntimeEvent → W → W))
          → run.events ≡ events
          → Leads R
              (elim events [
                | none ↦ return tt
                | some sink ↦
                    handle
                      (run.store_port.item_aggregates run.job_id)
                      (emit_progress run sink)
                      (λ _. return tt)
              ])
              w
              (λ _ after. view after ≡ view w)
      emits none given = return_rule tt refl
      emits (some sink) given =
          handle_rule (store.aggregates w)
            (λ aggregates after same. modify_rule _ (quiet.emit sink _ after given ∙ same))
            (λ _ after same. return_rule tt same)

  apply_listed :
      (start : Tables) (work : WorkItem) (state : ScanState) (works : List WorkItem) (w : W)
      → IsTracked run.job_id listing start (view w) state.visited (work ∷ (works ++ state.queue))
      → Leads
          (Stopped run view listing start)
          (apply_page run work.folder_id work.depth (listing work.folder_id work.page_token) state)
          w
          (λ next after.
            IsTracked run.job_id listing start (view after) next.visited (works ++ next.queue))
  unfolding apply_page
  apply_listed start work state works w given =
      let page = listing work.folder_id work.page_token in
      bind_rule (timestamp_rule run quiet w) (λ created_at timed same.
        bind_rule
          (discover_rule run quiet created_at (succ_ℤ work.depth) page.files state.visited timed)
          (λ found opened is_found.
            let tracked =
              subst
                (λ tables.
                  IsTracked run.job_id listing start tables state.visited
                    (work ∷ (works ++ state.queue)))
                (sym (is_found.0 ∙ same)) given in
            bind_rule
              (commit_items_rule run view listing start store (length found.discovered)
                found.discovered found.folder_checkpoints opened (omega arith) tracked.good
                is_found.1.fresh (λ n f h. inr (is_found.1.ahead n f h)))
              (λ rest batched some_done.
                bind_rule
                  (commit_folders_rule run view listing start store rest batched some_done.good
                    some_done.fresh)
                  (λ _ committed rest_done.
                    let done =
                      then_folders run.job_id listing start (view opened) (view batched)
                        (view committed) found.discovered found.folder_checkpoints rest some_done
                        rest_done in
                    let stored =
                      stored_page run.job_id listing start (view opened) (view committed) page.files
                        state.visited found found.folder_checkpoints [] tracked.known is_found.1
                        done in
                    bind_rule
                      (commit_cursor_rule run view listing start store work.folder_id work.depth
                        work.page_token page.next_page_token state.queue committed done.good
                        (IsReached-KeepsRows run.job_id listing done.kept tracked.workable.0)
                        (all-implies _ _ page.files (λ child. stored child.id) is_found.1.seen)
                        refl)
                      (λ queue' after turned.
                        bind_rule (emit_scan_progress_rule after) (λ _ last quiet_. return_rule _ (
                          subst
                            (λ tables.
                              IsTracked run.job_id listing start tables found.visited
                                (works ++ (queue' ++ map work_of found.folder_checkpoints)))
                            (sym quiet_)
                            (applied-IsTracked run.job_id listing start (view opened)
                              (view committed) (view after) work works state.queue queue'
                              state.visited found tracked is_found.1.fresh stored done
                              turned))))))))

  pub apply_page_rule :
      (start : Tables) (work : WorkItem) (page : DriveChildPage) (state : ScanState)
      (works : List WorkItem) (w : W)
      → page ≡ listing work.folder_id work.page_token
      → IsTracked run.job_id listing start (view w) state.visited (work ∷ (works ++ state.queue))
      → Leads
          (Stopped run view listing start)
          (apply_page run work.folder_id work.depth page state)
          w
          (λ next after.
            IsTracked run.job_id listing start (view after) next.visited (works ++ next.queue))
  apply_page_rule start work page state works w listed tracked =
      subst
        (λ files.
          Leads (Stopped run view listing start)
            (apply_page run work.folder_id work.depth files state) w
            (λ next after.
              IsTracked run.job_id listing start (view after) next.visited (works ++ next.queue)))
        (sym listed) (apply_listed start work state works w tracked)
