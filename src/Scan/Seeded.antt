-- ===== src/Scan/Seeded.antt =====
-- A scan that stops leaves every root stored, or none.
use gdom.Base.{
  ℕ, zero, suc, ◌≡◌, refl, ◌≤◌, ◌⊎◌, inl, inr, ◌∙◌, ap, subst, sym, String, List, [], ◌∷◌, true,
  ◌&&◌, Option, Result, ok, err, arith, length, take, drop, is_empty, all-implies,
}
use gdom.Base.Rules.{
  Comes, Leads, bind_rule, return_rule, map_err_rule, if_rule, weaken, consequence,
}
use gdom.Job.Types.{MigrationRoot}
use gdom.Item.State.{MigrationItem, ScanCheckpoint}
use gdom.Store.Rows.{Tables, insert_scan_batch, list_committed_file_ids, list_scan_checkpoints}
use gdom.Store.Lookups.{has_item, has_item-kept, item_at-presents}
use gdom.Scan.Types.{ScanError, ScanRun, DriveChildPage}
use gdom.Scan.Roots.{
  root_batch, persist_chunks, persist_roots, seed_roots, scan_checkpoint_batch_size,
}
use gdom.Scan.Run.{visited_ids, open_checkpoints, read_again, start_scan, run_scan}
use gdom.Scan.Progress.{KeepsRows, IsResumable}
use gdom.Scan.Laws.{IsScanStore, IsQuiet}
use gdom.Scan.Found.{has_file}
use gdom.Scan.Pages.{emit_scan_progress_rule}
use gdom.Scan.Waves.{scan_loop_rule}
use gdom.Scan.Seeds.{collect_roots_rule}
use gdom.Scan.Complete.{is_fresh, have_items, start_scan_rule}
use gdom.Scan.Safety.{fresh_good}

-- The job has no row and no checkpoint, so that the next run stores the roots, or it has every root.
abbrev pub IsSeeded : ℕ → List MigrationRoot → Tables → Type 0
IsSeeded job_id roots tables =
    (is_fresh job_id tables ≡ true) ⊎ (have_items job_id roots tables ≡ true)

-- What a next run goes on from: nothing is lost of what was found, and no root is left out.
pub record CanResume (job_id : ℕ) (roots : List MigrationRoot)
    (listing : String → Option String → DriveChildPage) (tables : Tables) : Type 0 where
  pub sound : IsResumable job_id listing tables
  pub seeded : IsSeeded job_id roots tables

all_taken : {A : Type 0} (n : ℕ) (xs : List A) → length xs ≤ n → take n xs ≡ xs
all_taken zero [] fits = refl
all_taken zero (x ∷ xs) fits = ground (arith, fits)
all_taken (suc n) [] fits = refl
all_taken (suc n) (x ∷ xs) fits = ap (◌∷◌ x) (all_taken n xs (omega (arith, fits)))

none_dropped : {A : Type 0} (n : ℕ) (xs : List A) → length xs ≤ n → drop n xs ≡ []
none_dropped zero [] fits = refl
none_dropped zero (x ∷ xs) fits = ground (arith, fits)
none_dropped (suc n) [] fits = refl
none_dropped (suc n) (x ∷ xs) fits = none_dropped n xs (omega (arith, fits))

both_ways :
    {S E A : Type 0} (R R' : E → S → Type 0) (Q Q' : A → S → Type 0) (r : Result E A) (s : S)
    → Comes R Q r s
    → Comes R' Q' r s
    → Comes (λ e after. R e after × R' e after) (λ a after. Q a after × Q' a after) r s
both_ways R R' Q Q' (ok a) s p q = (p, q)
both_ways R R' Q Q' (err e) s p q = (p, q)

-- Two things that are known of the same code.
both_rule :
    {S E A : Type 0} {R R' : E → S → Type 0} {Q Q' : A → S → Type 0} {m : S → Result E A × S}
    {s : S}
    → Leads R m s Q
    → Leads R' m s Q'
    → Leads (λ e after. R e after × R' e after) m s (λ a after. Q a after × Q' a after)
both_rule {R = R} {R' = R'} {Q = Q} {Q' = Q'} {m = m} {s = s} p q = record {
  comes = both_ways R R' Q Q' (m s).0 (m s).1 p.comes q.comes;
}

module _ {W : Type 0} (run : ScanRun W) (view : W → Tables)
    (listing : String → Option String → DriveChildPage)
    (store : IsScanStore run.store_port run.job_id view) (quiet : IsQuiet run view listing) where
  abbrev Seeded : W → Type 0
  Seeded w = IsSeeded run.job_id run.roots (view w)

  abbrev Rooted : W → Type 0
  Rooted w = have_items run.job_id run.roots (view w) ≡ true

  same-Rooted : (w after : W) → view after ≡ view w → Rooted w → Rooted after
  same-Rooted w after same rooted =
      subst (λ tables. have_items run.job_id run.roots tables ≡ true) (sym same) rooted

  same_fresh :
      (w after : W)
      → view after ≡ view w
      → is_fresh run.job_id (view w) ≡ true
      → is_fresh run.job_id (view after) ≡ true
  same_fresh w after same fresh =
      subst (λ tables. is_fresh run.job_id tables ≡ true) (sym same) fresh

  nothing_left :
      (left : ℕ) (checkpoints : List ScanCheckpoint) (w : W) {Q : Unit {0} → W → Type 0}
      → Q tt w
      → Leads (λ _ after. Seeded after) (persist_chunks run left [] checkpoints) w Q
  unfolding persist_chunks
  nothing_left zero checkpoints w q = return_rule tt q
  nothing_left (suc left) checkpoints w q = return_rule tt q

  -- At most a hundred roots are committed at once.
  persist_chunks-Seeded :
      (left : ℕ) (items : List MigrationItem) (checkpoints : List ScanCheckpoint) (w : W)
      → length items ≤ left
      → length items ≤ scan_checkpoint_batch_size
      → is_fresh run.job_id (view w) ≡ true
      → Leads
          (λ _ after. Seeded after)
          (persist_chunks run left items checkpoints)
          w
          (λ _ after.
            (f : String)
            → has_file f items ≡ true
            → has_item run.job_id (view after).items f ≡ true)
  unfolding persist_chunks root_batch insert_scan_batch
  persist_chunks-Seeded zero [] checkpoints w enough few fresh =
      return_rule tt (λ f found. ground arith)
  persist_chunks-Seeded zero (item ∷ items) checkpoints w enough few fresh = ground (arith, enough)
  persist_chunks-Seeded (suc left) [] checkpoints w enough few fresh =
      return_rule tt (λ f found. ground arith)
  persist_chunks-Seeded (suc left) (item ∷ items) checkpoints w enough few fresh =
      let n = scan_checkpoint_batch_size in
      let chunk = take n (item ∷ items) in
      bind_rule
        (map_err_rule ScanError.store (store.commits (root_batch run chunk checkpoints) w)
          (λ e after failed. inl (same_fresh w after failed.0 fresh)))
        (λ _ middle done.
          subst
            (λ (rest : List MigrationItem).
              Leads (λ _ after. Seeded after) (persist_chunks run left rest checkpoints) middle
                (λ _ after.
                  (f : String)
                  → has_file f (item ∷ items) ≡ true
                  → has_item run.job_id (view after).items f ≡ true))
            (sym (none_dropped n (item ∷ items) few))
            (nothing_left left checkpoints middle (λ f found.
              subst (λ (t : Tables). has_item run.job_id t.items f ≡ true) (sym done)
                (item_at-presents run.job_id chunk (view w).items f (
                  subst (λ (c : List MigrationItem). has_file f c ≡ true)
                    (sym (all_taken n (item ∷ items) few)) found)))))

  seed_roots-Seeded :
      (w : W)
      → length run.roots ≤ scan_checkpoint_batch_size
      → is_fresh run.job_id (view w) ≡ true
      → Leads (λ _ after. Seeded after) (seed_roots run true) w (λ _ after. Rooted after)
  unfolding seed_roots persist_roots
  seed_roots-Seeded w few fresh =
      bind_rule
        (consequence (collect_roots_rule run view listing quiet w)
          (λ e after u. inl (same_fresh w after u.0 fresh)) (λ batch after q. q))
        (λ batch collected q.
          weaken
            (persist_chunks-Seeded (length batch.items) batch.items batch.checkpoints_upsert
              collected (omega arith) (omega (arith, few, q.1.few))
              (same_fresh w collected q.0 fresh))
            (λ _ after stored.
              all-implies _ _ run.roots (λ root h. stored root.root_file_id (ground (arith, h)))
                q.1.rooted))

  visited_ids-Seeded :
      (w : W)
      → Seeded w
      → Leads
          (λ _ after. Seeded after)
          (visited_ids run)
          w
          (λ ids after. (view after ≡ view w) × (ids ≡ list_committed_file_ids run.job_id (view w)))
  unfolding visited_ids
  visited_ids-Seeded w seeded =
      map_err_rule ScanError.store (store.ids w)
        (λ e after failed. subst (IsSeeded run.job_id run.roots) (sym failed.0) seeded)

  open_checkpoints-Seeded :
      (w : W)
      → Seeded w
      → Leads
          (λ _ after. Seeded after)
          (open_checkpoints run)
          w
          (λ rows after. (view after ≡ view w) × (rows ≡ list_scan_checkpoints run.job_id (view w)))
  unfolding open_checkpoints
  open_checkpoints-Seeded w seeded =
      map_err_rule ScanError.store (store.checkpoints w)
        (λ e after failed. subst (IsSeeded run.job_id run.roots) (sym failed.0) seeded)

  read_again-Seeded :
      (w : W)
      → Rooted w
      → Leads (λ _ after. Seeded after) (read_again run) w (λ _ after. Rooted after)
  unfolding read_again
  read_again-Seeded w rooted = bind_rule (visited_ids-Seeded w (inr rooted)) (λ visited first p.
      bind_rule (open_checkpoints-Seeded first (inr (same-Rooted w first p.0 rooted)))
        (λ checkpoints second q.
          bind_rule (emit_scan_progress_rule run view listing store quiet second)
            (λ _ last e. return_rule _ (same-Rooted w last (e ∙ (q.0 ∙ p.0)) rooted))))

  start_scan-Seeded :
      (w : W)
      → length run.roots ≤ scan_checkpoint_batch_size
      → Seeded w
      → Leads (λ _ after. Seeded after) (start_scan run) w (λ _ after. Rooted after)
  unfolding start_scan
  start_scan-Seeded w few seeded = bind_rule (visited_ids-Seeded w seeded) (λ visited first p.
      bind_rule
        (open_checkpoints-Seeded first (subst (IsSeeded run.job_id run.roots) (sym p.0) seeded))
        (λ checkpoints second q.
          let same_rows = q.1 ∙ ap (list_scan_checkpoints run.job_id) p.0 in
          if_rule (is_empty checkpoints && is_empty visited)
            (λ none_found.
              bind_rule
                (seed_roots-Seeded second few (
                  same_fresh w second (q.0 ∙ p.0)
                    (ground (arith, none_found, ap is_empty p.1, ap is_empty same_rows))))
                (λ _ sown rooted. read_again-Seeded sown rooted))
            (λ found. return_rule _ (
              same-Rooted w second (q.0 ∙ p.0)
                (ground (arith, seeded, found, ap is_empty p.1, ap is_empty same_rows))))))

  kept-Rooted :
      (started after : W)
      → Rooted started
      → KeepsRows run.job_id (view started).items (view after).items
      → Rooted after
  kept-Rooted started after rooted kept =
      all-implies _ _ run.roots
        (λ root.
          has_item-kept run.job_id (view started).items (view after).items root.root_file_id
            (kept root.root_file_id))
        rooted

  pub run_scan-Seeded :
      (waves : ℕ) (w : W)
      → length run.roots ≤ scan_checkpoint_batch_size
      → CanResume run.job_id run.roots listing (view w)
      → Leads (λ _ after. Seeded after) (run_scan run waves) w (λ _ after. Rooted after)
  unfolding run_scan
  run_scan-Seeded waves w few can =
      bind_rule
        (consequence
          (both_rule
            (start_scan_rule run view listing store quiet (view w) w
              (fresh_good run view listing store quiet w can.sound))
            (start_scan-Seeded w few can.seeded))
          (λ e after ended. ended.1) (λ state after started. started))
        (λ state started tracked.
          consequence
            (scan_loop_rule run view listing store quiet (view started) waves state started
              (record {
                good = record { sound = tracked.0.0.good.sound; kept = λ f row found. found };
                known = tracked.0.0.known;
                queued = tracked.0.0.queued;
                workable = tracked.0.0.workable;
              }))
            (λ e after stopped. inr (kept-Rooted started after tracked.1 stopped.0.kept))
            (λ outcome after scanned. kept-Rooted started after tracked.1 scanned.good.kept))
