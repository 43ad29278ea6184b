-- ===== src/Handlers.antt =====
-- internal/handlers/handlers.go, one child for each group of routes.
pub mod Info
pub mod Download
pub mod Upload
pub mod Auth
pub mod Cors
pub mod Recorder
pub mod Gate
pub mod Socket
pub mod Probes
pub mod Router
pub mod Results
pub mod Tests
