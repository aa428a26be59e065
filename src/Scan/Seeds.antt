-- ===== src/Scan/Seeds.antt =====
-- The roots: what `collect_roots` makes of them, and the chunks that `persist_roots` commits.
use gdom.Base.{
  ℕ, zero, suc, ◌≡◌, refl, ◌≤◌, ◌⊎◌, inl, inr, String, List, [], ◌∷◌, Bool, true, false, ◌&&◌, ◌||◌,
  Option, arith, str_eq, eq_iff, all, filter, All-filter, length, take, drop, subst, sym, ◌∙◌,
  Bool-cases, any-split, all-implies, length-take, length-drop, if◌then◌else◌, pos,
}
use gdom.Base.Rules.{Leads, bind_rule, return_rule, map_err_rule, elim_rule, weaken, consequence}
use gdom.Job.Types.{MigrationRoot}
use gdom.Item.State.{MigrationItem, ScanCheckpoint}
use gdom.Drive.Types.{DriveChild}
use gdom.Store.Rows.{Tables, ItemBatchCommit}
use gdom.Store.Lookups.{has_item, has_item-kept}
use gdom.Scan.Types.{ScanError, ScanRun, DriveChildPage}
use gdom.Scan.Roots.{
  contains, item_of, recurses_into, checkpoint_of, child_of, push_root, collect_loop, collect_roots,
  root_batch, persist_chunks, persist_roots, seed_roots, scan_checkpoint_batch_size,
}
use gdom.Scan.Progress.{KeepsRows, is_folder_row}
use gdom.Scan.Laws.{IsScanStore, IsQuiet, is_oversized}
use gdom.Scan.Found.{
  has_file, has_folder, has_checkpoint, AreFresh, timestamp_rule, fresh_id_rule,
  recurses_into-is_folder_row,
}
use gdom.Scan.Commits.{IsGood, IsCommitted, batch-IsCommitted}
use gdom.Scan.Batches.{Stopped, commit_rule}

-- Every root that is not visited before is among the items, and every folder among the checkpoints.
pub record AreCollected (roots : List MigrationRoot) (visited : List String)
    (batch : ItemBatchCommit) : Type 0 where
  pub rooted :
      all
        (λ (root : MigrationRoot).
          contains visited root.root_file_id || has_file root.root_file_id batch.items)
        roots
      ≡ true
  pub paired :
      (f : String)
      → has_folder f batch.items ≡ true
      → has_checkpoint f batch.checkpoints_upsert ≡ true
  pub fresh : AreFresh batch.checkpoints_upsert
  pub few : length batch.items ≤ length roots

module _ {W : Type 0} (run : ScanRun W) where
  root_pushed :
      (id : ℕ) (created_at : String) (root : MigrationRoot) (child : DriveChild)
      (roots : List MigrationRoot) (visited : List String) (batch : ItemBatchCommit)
      → AreCollected roots (root.root_file_id ∷ visited) batch
      → AreCollected (root ∷ roots) visited (push_root run true id created_at root child batch)
  unfolding push_root item_of checkpoint_of
  root_pushed id created_at root child roots visited batch rest = record {
    rooted = ground (
      arith,
      eq_iff root.root_file_id root.root_file_id,
      all-implies
          (λ (r : MigrationRoot).
            contains (root.root_file_id ∷ visited) r.root_file_id
            || has_file r.root_file_id batch.items)
          (λ (r : MigrationRoot).
            contains visited r.root_file_id
            || has_file r.root_file_id
                (item_of run id created_at root.root_file_id (pos 0) child ∷ batch.items))
          roots
          (λ r h. ground (
            arith,
            h,
            eq_iff r.root_file_id root.root_file_id,
            eq_iff root.root_file_id r.root_file_id,
          ))
          rest.rooted,
    );
    paired =
        paired_with (recurses_into run child)
          (recurses_into-is_folder_row run id created_at root.root_file_id (pos 0) child);
    fresh = fresh_with (recurses_into run child);
    few = omega (arith, rest.few);
  }
    where
      paired_with :
          (goes_down : Bool)
          → (is_folder_row (item_of run id created_at root.root_file_id (pos 0) child) ≡ true
              → goes_down ≡ true)
          → (f : String)
          → has_folder f (item_of run id created_at root.root_file_id (pos 0) child ∷ batch.items)
            ≡ true
          → has_checkpoint f (
              if true && goes_down
              then checkpoint_of run root.root_file_id (pos 0) ∷ batch.checkpoints_upsert
              else batch.checkpoints_upsert)
            ≡ true
      paired_with true down f found = ground (arith, rest.paired f)
      paired_with false down f found = ground (arith, rest.paired f, down)

      fresh_with :
          (goes_down : Bool)
          → AreFresh (
              if true && goes_down
              then checkpoint_of run root.root_file_id (pos 0) ∷ batch.checkpoints_upsert
              else batch.checkpoints_upsert)
      fresh_with true = (refl, rest.fresh)
      fresh_with false = rest.fresh

  root_passed :
      (root : MigrationRoot) (roots : List MigrationRoot) (visited : List String)
      (batch : ItemBatchCommit)
      → contains visited root.root_file_id ≡ true
      → AreCollected roots visited batch
      → AreCollected (root ∷ roots) visited batch
  root_passed root roots visited batch here rest = record {
    rooted = ground (arith, rest.rooted);
    paired = rest.paired;
    fresh = rest.fresh;
    few = omega (arith, rest.few);
  }

-- A chunk takes the checkpoints of its own items.
chunk_paired :
    (f : String) (chunk : List MigrationItem) (checkpoints : List ScanCheckpoint)
    → has_checkpoint f checkpoints ≡ true
    → has_file f chunk ≡ true
    → has_checkpoint f
        (filter (λ (checkpoint : ScanCheckpoint). has_file checkpoint.folder_id chunk) checkpoints)
      ≡ true
chunk_paired f chunk [] found here = found
chunk_paired f chunk (checkpoint ∷ checkpoints) found here =
    elim (Bool-cases (str_eq checkpoint.folder_id f)) [
      | inl same ↦ ground (
        arith,
        same,
        subst (λ g. has_file g chunk ≡ true) (sym ((eq_iff checkpoint.folder_id f).0 same)) here,
      )
      | inr other ↦
          ground
            (arith, other, chunk_paired f chunk checkpoints (ground (arith, found, other)) here)
    ]

folder_is_file :
    (f : String) (items : List MigrationItem) → has_folder f items ≡ true → has_file f items ≡ true
folder_is_file f [] found = found
folder_is_file f (item ∷ items) found = ground (arith, folder_is_file f items)

folder_in_part :
    (f : String) (n : ℕ) (items : List MigrationItem)
    → ((has_folder f (take n items) ≡ true) ⊎ (has_folder f (drop n items) ≡ true))
    → has_folder f items ≡ true
folder_in_part f n items found = ground (
  arith,
  found,
  any-split (λ (item : MigrationItem). is_folder_row item && str_eq item.file_id f) n items,
)

-- What the chunks leave.
pub record AreSeeded (job_id : ℕ) (listing : String → Option String → DriveChildPage)
    (start before after : Tables) (items : List MigrationItem) : Type 0 where
  pub good : IsGood job_id listing start after
  pub kept : KeepsRows job_id before.items after.items
  pub stored : (f : String) → has_file f items ≡ true → has_item job_id after.items f ≡ true

then_chunk :
    (job_id : ℕ) (listing : String → Option String → DriveChildPage)
    (start before middle after : Tables) (items : List MigrationItem)
    (checkpoints : List ScanCheckpoint) (n : ℕ)
    → IsCommitted job_id listing start before middle (take n items) checkpoints []
    → AreSeeded job_id listing start middle after (drop n items)
    → AreSeeded job_id listing start before after items
then_chunk job_id listing start before middle after items checkpoints n chunk others = record {
  good = others.good;
  kept = λ f row found. others.kept f row (chunk.kept f row found);
  stored = λ f found. ground (
    arith,
    any-split (λ (item : MigrationItem). str_eq item.file_id f) n items,
    chunk.stored f,
    others.stored f,
    has_item-kept job_id middle.items after.items f (others.kept f),
  );
}

none-AreSeeded :
    (job_id : ℕ) (listing : String → Option String → DriveChildPage) (start tables : Tables)
    → IsGood job_id listing start tables
    → AreSeeded job_id listing start tables tables []
none-AreSeeded job_id listing start tables good = record {
  good = good;
  kept = λ f row found. found;
  stored = λ f found. ground arith;
}

module _ {W : Type 0} (run : ScanRun W) (view : W → Tables)
    (listing : String → Option String → DriveChildPage) (quiet : IsQuiet run view listing) where
  -- A failure that has stored nothing.
  abbrev pub Untouched : W → ScanError → W → Type 0
  Untouched w e after = (view after ≡ view w) × (is_oversized e ≡ false)

  collect_loop_rule :
      (created_at : String) (roots : List MigrationRoot) (visited : List String) (w : W)
      → Leads
          (Untouched w)
          (collect_loop run true created_at roots visited)
          w
          (λ batch after. (view after ≡ view w) × AreCollected roots visited batch)
  unfolding collect_loop
  collect_loop_rule created_at [] visited w = return_rule _ (
    refl,
    record { rooted = refl; paired = λ f found. ground arith; fresh = tt; few = omega arith },
  )
  collect_loop_rule created_at (root ∷ roots) visited w =
      elim_rule (contains visited root.root_file_id)
        (λ here.
          weaken (collect_loop_rule created_at roots visited w)
            (λ batch after q. (q.0, root_passed run root roots visited batch here q.1)))
        (λ new.
          bind_rule
            (map_err_rule _ (quiet.get_file root.root_file_id w) (λ e after same. (same, refl)))
            (λ snapshot got same. bind_rule (fresh_id_rule run quiet got) (λ id drawn same_again.
              bind_rule
                (consequence
                  (collect_loop_rule created_at roots (root.root_file_id ∷ visited) drawn)
                  (λ e after u. (u.0 ∙ (same_again ∙ same), u.1)) (λ batch after q. q))
                (λ batch after q. return_rule _ (
                  q.0 ∙ (same_again ∙ same),
                  root_pushed run id created_at root (child_of snapshot) roots visited batch q.1,
                )))))

  pub collect_roots_rule :
      (w : W)
      → Leads
          (Untouched w)
          (collect_roots run true)
          w
          (λ batch after. (view after ≡ view w) × AreCollected run.roots [] batch)
  unfolding collect_roots
  collect_roots_rule w = bind_rule (timestamp_rule run quiet w) (λ created_at timed same.
      consequence (collect_loop_rule created_at run.roots [] timed) (λ e after u. (u.0 ∙ same, u.1))
        (λ batch after q. (q.0 ∙ same, q.1)))

module _ {W : Type 0} (run : ScanRun W) (view : W → Tables)
    (listing : String → Option String → DriveChildPage)
    (store : IsScanStore run.store_port run.job_id view) (quiet : IsQuiet run view listing)
    (start : Tables) where
  persist_chunks_rule :
      (left : ℕ) (items : List MigrationItem) (checkpoints : List ScanCheckpoint) (w : W)
      → length items ≤ left
      → IsGood run.job_id listing start (view w)
      → AreFresh checkpoints
      → ((f : String) → has_folder f items ≡ true → has_checkpoint f checkpoints ≡ true)
      → Leads
          (Stopped run view listing start)
          (persist_chunks run left items checkpoints)
          w
          (λ _ after. AreSeeded run.job_id listing start (view w) (view after) items)
  unfolding persist_chunks root_batch
  persist_chunks_rule zero [] checkpoints w enough good fresh paired =
      return_rule _ (none-AreSeeded run.job_id listing start (view w) good)
  persist_chunks_rule zero (item ∷ items) checkpoints w enough good fresh paired =
      ground (arith, enough)
  persist_chunks_rule (suc left) [] checkpoints w enough good fresh paired =
      return_rule _ (none-AreSeeded run.job_id listing start (view w) good)
  persist_chunks_rule (suc left) (item ∷ items) checkpoints w enough good fresh paired =
      let n = scan_checkpoint_batch_size in
      let chunk = take n (item ∷ items) in
      let own =
        filter (λ (checkpoint : ScanCheckpoint). has_file checkpoint.folder_id chunk) checkpoints in
      bind_rule
        (commit_rule run view listing start store _ w (omega (arith, length-take n (item ∷ items)))
          good)
        (λ _ middle done.
          let committed =
            subst (λ tables. IsCommitted run.job_id listing start (view w) tables chunk own [])
              (sym done)
              (batch-IsCommitted run.job_id listing start (view w) chunk own good
                (All-filter _ _ checkpoints fresh)
                (λ f found. inr (
                  chunk_paired f chunk checkpoints
                    (paired f (folder_in_part f n (item ∷ items) (inl found)))
                    (folder_is_file f chunk found)))) in
          weaken
            (persist_chunks_rule left (drop n (item ∷ items)) checkpoints middle
              (omega (arith, length-drop n (item ∷ items), enough)) committed.good fresh
              (λ f found. paired f (folder_in_part f n (item ∷ items) (inr found))))
            (λ _ after others.
              then_chunk run.job_id listing start (view w) (view middle) (view after) (item ∷ items)
                own n committed others))

  pub seed_roots_rule :
      (w : W)
      → IsGood run.job_id listing start (view w)
      → Leads (Stopped run view listing start) (seed_roots run true) w (λ _ after.
        IsGood run.job_id listing start (view after)
        × (all
              (λ (root : MigrationRoot). has_item run.job_id (view after).items root.root_file_id)
              run.roots
            ≡ true))
  unfolding seed_roots persist_roots
  seed_roots_rule w good =
      bind_rule
        (consequence (collect_roots_rule run view listing quiet w)
          (λ e after u. (subst (IsGood run.job_id listing start) (sym u.0) good, u.1))
          (λ batch after q. q))
        (λ batch collected q.
          weaken
            (persist_chunks_rule (length batch.items) batch.items batch.checkpoints_upsert collected
              (omega arith) (subst (IsGood run.job_id listing start) (sym q.0) good) q.1.fresh
              q.1.paired)
            (λ _ after seeded. (
              seeded.good,
              all-implies _ _ run.roots
                  (λ root h. seeded.stored root.root_file_id (ground (arith, h))) q.1.rooted,
            )))
