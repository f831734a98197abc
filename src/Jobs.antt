-- ===== src/Jobs.antt =====
-- internal/jobs/job.go: the job record, its constructor and the retry delay (the child `Backoff`).
-- A `time.Time` is a number of nanoseconds, 0 for the zero time. `Retries` is a counter that starts
-- at 0 and only grows, so it is a natural number; integers that come from requests are signed.
pub mod Types
pub mod Create
pub mod Backoff
