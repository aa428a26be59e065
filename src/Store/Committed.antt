-- ===== src/Store/Committed.antt =====
-- A commit of a scan batch is done as a whole or not at all, so the SQLite store is what a scan needs.
use gdom.Base.{
  ℕ, ◌≡◌, ◌<◌, refl, ap, ◌∙◌, String, List, [], ◌∷◌, Bool, true, false, Option, none, some, Result,
  ok, err, ltb, length, arith, if◌then◌else◌,
}
use gdom.Base.Rules.{Comes, Leads, bind_rule, return_rule, weaken}
use gdom.Item.State.{MigrationItem, ScanCheckpoint}
use gdom.Transfer.Types.{ItemStoreError}
use gdom.Store.Rows.{
  Tables, ItemBatchCommit, insert_scan_batch, insert_items, upsert_checkpoints, delete_checkpoints,
  list_committed_file_ids, list_scan_checkpoints,
}
use gdom.Store.Aggregates.{item_aggregates}
use gdom.Store.Sqlite.{
  Statement, run_statement, done_or, execute, execute_items, execute_upserts, execute_deletes,
  execute_batch, end_transaction, begun, commit_scan_batch, sqlite,
}
use gdom.Scan.Roots.{scan_checkpoint_batch_size}
use gdom.Scan.Laws.{IsScanStore, is_too_large}

module _ (begins : Tables → Option String) (executes : Statement → Tables → Option String)
    (commits : Tables → Option String) (fails : Tables → Option String) where
  execute_rule :
      (job_id : ℕ) (statement : Statement) (working : Tables)
      → Leads
          (λ e _. is_too_large e ≡ false)
          (execute begins executes commits fails job_id statement)
          working
          (λ _ after. after ≡ run_statement job_id statement working)
  execute_rule job_id statement working = record { comes = ended (executes statement working) }
    where
      ended :
          (failure : Option String)
          → Comes
              (λ e _. is_too_large e ≡ false)
              (λ (_ : Unit {0}) after. after ≡ run_statement job_id statement working)
              (done_or begins executes commits fails failure tt
                (run_statement job_id statement working)
                working).0
              (done_or begins executes commits fails failure tt
                (run_statement job_id statement working)
                working).1
      ended none = refl
      ended (some message) = refl

  module _ (job_id : ℕ) where
    items_rule :
        (items : List MigrationItem) (working : Tables)
        → Leads
            (λ e _. is_too_large e ≡ false)
            (execute_items begins executes commits fails job_id items)
            working
            (λ _ after. after ≡ record working { items = insert_items job_id items working.items })
    unfolding execute_items
    items_rule [] working = return_rule tt refl
    items_rule (item ∷ items) working = bind_rule (execute_rule job_id _ working) (λ _ first done.
        weaken (items_rule items first) (λ _ after rest.
          rest ∙ ap (λ (t : Tables). record t { items = insert_items job_id items t.items }) done))

    upserts_rule :
        (checkpoints : List ScanCheckpoint) (working : Tables)
        → Leads
            (λ e _. is_too_large e ≡ false)
            (execute_upserts begins executes commits fails job_id checkpoints)
            working
            (λ _ after. after ≡ record working {
              checkpoints = upsert_checkpoints job_id checkpoints working.checkpoints;
            })
    unfolding execute_upserts
    upserts_rule [] working = return_rule tt refl
    upserts_rule (checkpoint ∷ checkpoints) working =
        bind_rule (execute_rule job_id _ working) (λ _ first done.
          weaken (upserts_rule checkpoints first) (λ _ after rest.
            rest
            ∙ ap
                (λ (t : Tables). record t {
                  checkpoints = upsert_checkpoints job_id checkpoints t.checkpoints;
                })
                done))

    deletes_rule :
        (folder_ids : List String) (working : Tables)
        → Leads
            (λ e _. is_too_large e ≡ false)
            (execute_deletes begins executes commits fails job_id folder_ids)
            working
            (λ _ after. after ≡ record working {
              checkpoints = delete_checkpoints job_id folder_ids working.checkpoints;
            })
    unfolding execute_deletes
    deletes_rule [] working = return_rule tt refl
    deletes_rule (folder_id ∷ folder_ids) working =
        bind_rule (execute_rule job_id _ working) (λ _ first done.
          weaken (deletes_rule folder_ids first) (λ _ after rest.
            rest
            ∙ ap
                (λ (t : Tables). record t {
                  checkpoints = delete_checkpoints job_id folder_ids t.checkpoints;
                })
                done))

    batch_rule :
        (batch : ItemBatchCommit) (tables : Tables)
        → Leads
            (λ e _. is_too_large e ≡ false)
            (execute_batch begins executes commits fails job_id batch)
            tables
            (λ _ after. after ≡ insert_scan_batch job_id batch tables)
    unfolding execute_batch insert_scan_batch
    batch_rule batch tables = bind_rule (items_rule batch.items tables) (λ _ first done.
        bind_rule (upserts_rule batch.checkpoints_upsert first) (λ _ second then_.
          weaken (deletes_rule batch.checkpoints_delete second) (λ _ after last.
            last
            ∙ ap
                (λ (t : Tables). record t {
                  checkpoints = delete_checkpoints job_id batch.checkpoints_delete t.checkpoints;
                })
                (then_
                  ∙ ap
                      (λ (t : Tables). record t {
                        checkpoints =
                            upsert_checkpoints job_id batch.checkpoints_upsert t.checkpoints;
                      })
                      done))))

  -- The end of a commit: nothing of the batch, or all of it.
  abbrev pub CommitEnds : ℕ → ItemBatchCommit → Tables → Result ItemStoreError ℕ → Tables → Type 0
  CommitEnds job_id batch tables (err e) end =
      (end ≡ tables) × (is_too_large e ≡ true → scan_checkpoint_batch_size < length batch.items)
  CommitEnds job_id batch tables (ok n) end =
      (n ≡ length batch.items) × (end ≡ insert_scan_batch job_id batch tables)

  transaction-CommitEnds :
      (job_id : ℕ) (batch : ItemBatchCommit) (tables : Tables)
      (r : Result ItemStoreError (Unit {0}) × Tables)
      → Comes
          (λ e _. is_too_large e ≡ false)
          (λ _ after. after ≡ insert_scan_batch job_id batch tables)
          r.0
          r.1
      → let end_ = end_transaction begins executes commits fails (length batch.items) tables r in
        CommitEnds job_id batch tables end_.0 end_.1
  unfolding end_transaction
  transaction-CommitEnds job_id batch tables (err e, working) h =
      (refl, λ large. ground (arith, h, large))
  transaction-CommitEnds job_id batch tables (ok _, working) h = committed (commits working)
    where
      committed :
          (failure : Option String)
          → let end_ =
              done_or begins executes commits fails failure (length batch.items) working tables in
            CommitEnds job_id batch tables end_.0 end_.1
      committed none = (refl, h)
      committed (some message) = (refl, λ large. ground (arith, large))

  begun-CommitEnds :
      (job_id : ℕ) (batch : ItemBatchCommit) (tables : Tables) (failure : Option String)
      (rest : Result ItemStoreError ℕ × Tables)
      → CommitEnds job_id batch tables rest.0 rest.1
      → let end_ = begun begins executes commits fails failure tables rest in
        CommitEnds job_id batch tables end_.0 end_.1
  begun-CommitEnds job_id batch tables none rest h = h
  begun-CommitEnds job_id batch tables (some message) rest h =
      (refl, λ large. ground (arith, large))

  pub commit_scan_batch-CommitEnds :
      (job_id : ℕ) (batch : ItemBatchCommit) (tables : Tables)
      → CommitEnds job_id batch tables
          (commit_scan_batch begins executes commits fails job_id batch tables).0
          (commit_scan_batch begins executes commits fails job_id batch tables).1
  unfolding commit_scan_batch
  commit_scan_batch-CommitEnds job_id batch tables =
      sized (ltb scan_checkpoint_batch_size (length batch.items)) refl
    where
      opened : Result ItemStoreError ℕ × Tables
      opened = begun begins executes commits fails (begins tables) tables (
          end_transaction begins executes commits fails (length batch.items) tables
            (execute_batch begins executes commits fails job_id batch tables))

      sized :
          (large : Bool)
          → ltb scan_checkpoint_batch_size (length batch.items) ≡ large
          → let end_ =
              if large
              then (
                err (
                    ItemStoreError.batch_too_large (length batch.items) scan_checkpoint_batch_size),
                tables,
              )
              else opened in
            CommitEnds job_id batch tables end_.0 end_.1
      sized true over = (refl, λ _. ground (arith, over))
      sized false fits = begun-CommitEnds job_id batch tables (begins tables) _ (
          transaction-CommitEnds job_id batch tables
            (execute_batch begins executes commits fails job_id batch tables)
            (batch_rule job_id batch tables).comes)

  queried :
      {A : Type 0} (failure : Option String) (value : A) (tables : Tables)
      → let end_ = done_or begins executes commits fails failure value tables tables in
        Comes
          (λ e (end : Tables). (end ≡ tables) × (is_too_large e ≡ false))
          (λ answer end. (end ≡ tables) × (answer ≡ value))
          end_.0
          end_.1
  queried none value tables = (refl, refl)
  queried (some message) value tables = (refl, refl)

  counted :
      {A : Type 0} (failure : Option String) (value : A) (tables : Tables)
      → let end_ = done_or begins executes commits fails failure value tables tables in
        Comes (λ _ (end : Tables). end ≡ tables) (λ _ end. end ≡ tables) end_.0 end_.1
  counted none value tables = refl
  counted (some message) value tables = refl

  commit_scan_batch-Comes :
      (job_id : ℕ) (batch : ItemBatchCommit) (tables : Tables) (r : Result ItemStoreError ℕ)
      (end : Tables)
      → CommitEnds job_id batch tables r end
      → Comes
          (λ e (end : Tables).
            (end ≡ tables)
            × (is_too_large e ≡ true → scan_checkpoint_batch_size < length batch.items))
          (λ _ end. end ≡ insert_scan_batch job_id batch tables)
          r
          end
  commit_scan_batch-Comes job_id batch tables (ok n) end h = h.1
  commit_scan_batch-Comes job_id batch tables (err e) end h = h

  -- The store over SQLite is what a scan relies on: a batch is committed as a whole or not at all,
  -- refused as too large only above the limit, and the lists are read off the tables.
  pub sqlite-IsScanStore :
      (job_id : ℕ) → IsScanStore (sqlite begins executes commits fails) job_id (λ tables. tables)
  unfolding sqlite
  sqlite-IsScanStore job_id = record {
    commits = λ batch tables. record {
      comes =
          commit_scan_batch-Comes job_id batch tables _ _
            (commit_scan_batch-CommitEnds job_id batch tables);
    };
    ids = λ tables. record {
      comes = queried (fails tables) (list_committed_file_ids job_id tables) tables;
    };
    checkpoints = λ tables. record {
      comes = queried (fails tables) (list_scan_checkpoints job_id tables) tables;
    };
    aggregates = λ tables. record {
      comes = counted (fails tables) (item_aggregates job_id tables.items) tables;
    };
  }
