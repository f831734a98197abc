-- ===== src/Examples.antt =====
-- Tests: every theorem at a concrete input.
mod Jobs
mod Breaker
mod Session
mod Queue
mod Settle
mod Maintain
mod Storage
mod Worker
mod Service
mod Webhooks
mod Records
mod Lifecycle
mod Api
mod Sse
