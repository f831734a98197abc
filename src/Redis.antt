-- ===== src/Redis.antt =====
-- The Redis server that internal/queue/redis and the stores talk to, as far as they use it. The server is not
-- part of the repository: it is a parameter of its users, a function that executes commands, and
-- `Documented` says which behaviour of it is relied upon.
pub mod Data
pub mod Commands
pub mod Client
pub mod Sorted
