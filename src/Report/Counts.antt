-- ===== src/Report/Counts.antt =====
-- src-tauri/src/application/final_report.rs: the counts of the final report. The u64 counters count
-- items one by one, so they do not reach their bound.
use gdom.Base.{ℕ, ◌+◌, ℤ, String, Option, List, [], ◌∷◌}
use gdom.Item.State.{ItemState}

pub record FinalReportCounts : Type 0 where
  pub total : ℕ
  pub verified : ℕ
  pub failed : ℕ
  pub cancelled : ℕ
  pub skipped : ℕ
  pub unfinished : ℕ

pub record FinalReportItem : Type 0 where
  pub file_id : String
  pub name : String
  pub mime_type : String
  pub depth : ℤ
  pub quota_bytes_used : Option ℤ
  pub original_parent_ids : List String
  pub state : ItemState
  pub error_code : Option String
  pub error_reason : Option String
  pub error_message : Option String
  pub transferred_at : Option String
  pub verified_at : Option String

abbrev pub no_counts : FinalReportCounts
no_counts = record {
  total = 0;
  verified = 0;
  failed = 0;
  cancelled = 0;
  skipped = 0;
  unfinished = 0;
}

-- The `match` of the loop.
unfoldable pub count_state : ItemState → FinalReportCounts → FinalReportCounts
count_state ItemState.verified counts = record counts { verified = counts.verified + 1 }
count_state ItemState.retryable_failed counts = record counts { failed = counts.failed + 1 }
count_state ItemState.permanent_failed counts = record counts { failed = counts.failed + 1 }
count_state ItemState.cancelled counts = record counts { cancelled = counts.cancelled + 1 }
count_state ItemState.skipped_already_owned_by_target counts = record counts {
  skipped = counts.skipped + 1;
}
count_state ItemState.skipped_not_owned_by_source counts = record counts {
  skipped = counts.skipped + 1;
}
count_state ItemState.skipped_shared_drive counts = record counts { skipped = counts.skipped + 1 }
count_state ItemState.skipped_shortcut_target counts = record counts {
  skipped = counts.skipped + 1;
}
count_state ItemState.skipped_trashed counts = record counts { skipped = counts.skipped + 1 }
count_state ItemState.skipped_ineligible counts = record counts { skipped = counts.skipped + 1 }
count_state _ counts = record counts { unfinished = counts.unfinished + 1 }

unfoldable pub count_items : List FinalReportItem → FinalReportCounts → FinalReportCounts
unfolding count_state
count_items [] counts = counts
count_items (item ∷ items) counts =
    count_items items (count_state item.state (record counts { total = counts.total + 1 }))

-- `FinalReportSnapshot::counts`.
unfoldable pub counts : List FinalReportItem → FinalReportCounts
unfolding count_items
counts items = count_items items no_counts
