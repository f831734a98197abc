-- ===== src/Queue.antt =====
-- internal/queue/redis/redis.go: the queue over Redis. `call` is the server (`Redis`); a clock's
-- reading `now`, in nanoseconds, is an argument of each operation, read once.
pub mod Partition
pub mod Submit
pub mod Take
pub mod Settle
pub mod Maintain
pub mod Operate
