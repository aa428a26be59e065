-- ===== src/Lib.antt =====
-- gdom: a desktop program that moves the ownership of a tree of Google Drive items from a source
-- account to a target account of one person. A job names two accounts and the roots to migrate; a
-- scan lists what lies below them as items; a transfer takes the items that the source owns, first
-- a canary of a few, then the rest.
--
-- The parts, and where each is modelled:
-- - Job: a migration job (src-tauri/crates/gdom-migration/src/job.rs and job/). Job/Status is
--   job/status.rs, Job/Roots is job/roots.rs and `change_accounts` of job.rs, Job/Scanning and
--   Job/Transfer are job/scanning.rs and job/transfer.rs. A method of `&mut self` is a function to
--   the job that it leaves and its answer. Job/Ops gathers the methods and setters into one type of calls, and
--   a history is a list of those; Job/Graph is the diagram of the statuses.
-- - Item: the states of an item and their table (gdom-migration/src/item.rs).
-- - Classifier: what becomes of a child that the scan lists
--   (src-tauri/src/application/item_classifier.rs).
-- - Transfer: the engine (src-tauri/src/application/transfer.rs). Transfer/Types has the phases, the
--   errors and the halts, Transfer/Steps the retries and the changes of an item, Transfer/Item the
--   step `transfer_one` (`transfer_held` is its body, with the item that it owns in hand), Transfer/Run the loop over the items and the runs of a job,
--   Transfer/Checkpoint the look at the items that a stopped run left. What the
--   engine is given - Drive, the item store, the sleeper, the jitter, the clock, the flags, the
--   event sink - is a record of functions over a world `W`, each of which may change the world and
--   answer as it likes, so every theorem holds for every Drive and every store. A step is a function
--   from the item and the world to a result and what it leaves of the two, on an error too.
--   Transfer/Hoare has rules for the conditions before and after such code, Transfer/Rules those of
--   the engine's parts, and Transfer/Table the sets of states that the conditions speak of.
--   Transfer/Reached has the worlds that the calls of a step lead to.
-- - Store: the item store (src-tauri/src/infrastructure/item_store.rs). Store/Rows has the tables of
--   items and checkpoints and `insert_scan_batch`, Store/Aggregates the counts, Store/Sqlite the
--   operations that a scan calls, with what SQLite refuses as a parameter: a commit begins a
--   transaction, runs its statements on a working copy of the tables and commits it or drops it.
--   Store/Committed follows the statements and Store/Batch tells row by row what they come to;
--   Store/Order has the sorted lists and pages, with the order in which SQLite comes to the rows as a
--   parameter, Store/Changes the saving, cancellation and retry of items with their events.
-- - Scan: the scanner (scanner.rs of src-tauri/src/application). Scan/Roots has the roots, Scan/Page
--   `apply_page` and Scan/Run `run_scan`, over a world and ports as in the transfer. Scan/Laws says
--   what a scan relies on: a store with atomic commits, which Store/Committed shows of
--   the store over SQLite, and a Drive whose
--   folders do not change meanwhile, though its calls may fail at any time. Scan/Progress says what
--   the tables promise to a later run; Commits, Batches, Cursor and Pages keep it through a page,
--   Seeds through the roots, Waves and Complete through a run, Safety,
--   Seeded and Resumption draw the conclusions, over several runs too; Ends and Halts count what is left.
--   The tasks of a wave end in any order; that they list at the same time does not show, since a
--   listing changes nothing.
-- - Drive, Backoff, Time: the records and failures of Drive (drive_folder.rs, drive_tree.rs,
--   drive_transfer.rs), the delays (backoff.rs) and the ISO text of the clock (time.rs), all of
--   src-tauri/src/application.
-- - Queue: the order of the queue and its positions (queue_service.rs), with the errors of the job
--   service and the job store (job_service.rs, job_store.rs). What the service reads from the store
--   is an argument.
-- - Service: the reconciliation of the jobs at the start of the program (job_service.rs of
--   src-tauri/src/application), over a world and ports as in the transfer. Service/Startup has the
--   loop, Service/Laws what it relies on, Service/Turns what one turn does to the stored jobs, Service/Rested
--   the whole loop.
-- - Report: the counts of the final report (final_report.rs) and a cell of a CSV report
--   (preflight.rs), of src-tauri/src/application.
-- - Base: the shared names and helpers.
--
-- Numbers: ids of 128 bits and unsigned counts are natural numbers, an i64 is the integer that it
-- stands for. The shift and the saturating sum of a delay are written out at 64 bits.
-- Bounds: the loops of `retry` and of a verification run over the attempts that are left, from six
-- down, as in the source, so they need no fuel. A decimal text is written with one unit of fuel for
-- each unit of the number, which is more than its digits.
-- The loops over batches and chunks run over as many steps as there are items, each of which takes one
-- at least. The loop over the waves of a scan takes a number of waves and says where these do not do;
-- of a finite Drive some number does.
-- Not modelled: the store of jobs, HTTP, OAuth and the keychain, the windows and their commands; how
-- a failure is read from an HTTP answer; the rest of the job service, the accounts and the logs.
-- Concurrency is not modelled: one step has the world to itself between two calls of a port, but a
-- port may answer differently each time.
pub mod Base
pub mod Job
pub mod Item
pub mod Time
pub mod Drive
pub mod Classifier
pub mod Backoff
pub mod Transfer
pub mod Queue
pub mod Store
pub mod Scan
pub mod Service
pub mod Report
