-- ===== src/Time.antt =====
-- src-tauri/src/application/time.rs: the clock as an ISO text. The system clock is a parameter of
-- the callers: milliseconds since 1970, never before it (`unwrap_or_default`), so the i64
-- arithmetic below stays on numbers, and the branch for a negative day is never taken.
mod Tests
use gdom.Base.{ℕ, ◌+◌, ◌-◌, ◌*◌, ◌/◌, ◌%◌, String, ◌<>◌, if◌then◌else◌, ltb, leb, padded}

pub record Date : Type 0 where
  pub year : ℕ
  pub month : ℕ
  pub day : ℕ

unfoldable pub days_to_ymd : ℕ → Date
days_to_ymd days =
    let z = days + 719468 in
    let era = z / 146097 in
    let doe = z - era * 146097 in
    let yoe = (doe - doe / 1460 + doe / 36524 - doe / 146096) / 365 in
    let y = yoe + era * 400 in
    let doy = doe - (365 * yoe + yoe / 4 - yoe / 100) in
    let mp = (5 * doy + 2) / 153 in
    let d = doy - (153 * mp + 2) / 5 + 1 in
    let m = if ltb mp 10 then mp + 3 else mp - 9 in
    record { year = if leb m 2 then y + 1 else y; month = m; day = d }

unfoldable pub iso_text : ℕ → String
unfolding days_to_ymd padded
iso_text clock_ms =
    let secs = clock_ms / 1000 in
    let millis = clock_ms % 1000 in
    let rem_secs = secs % 86400 in
    let date = days_to_ymd (secs / 86400) in
    padded 4 date.year
    <> ("-"
        <> (padded 2 date.month
            <> ("-"
                <> (padded 2 date.day
                    <> ("T"
                        <> (padded 2 (rem_secs / 3600)
                            <> (":"
                                <> (padded 2 (rem_secs % 3600 / 60)
                                    <> (":"
                                        <> (padded 2 (rem_secs % 60)
                                            <> ("." <> (padded 3 millis <> "Z"))))))))))))
