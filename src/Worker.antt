-- ===== src/Worker.antt =====
-- internal/worker/executor: the execution of one job behind the circuit breaker (`Execute`), and what a
-- worker does with one job (`Process`); the plugins (`Registry`), the rate limiter and the pool of workers.
pub mod Execute
pub mod Process
pub mod Limiter
pub mod Pool
pub mod Registry
