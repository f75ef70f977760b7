-- ===== src/Worker.antt =====
-- internal/worker/worker.go
pub mod Select
pub mod Scripts
pub mod Pop
pub mod Owner
pub mod Stream
pub mod Start
