-- ===== src/Service.antt =====
-- internal/service/job_service.go: the creation of a job (`Create`).
pub mod Create
pub mod World
pub mod Results
pub mod Schedule
pub mod Admin
pub mod Batch
