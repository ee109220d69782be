-- ===== src/Service.antt =====
-- include/image-service: the registered containers and their initialisation on demand.
pub mod Storage
pub mod Initializer
pub mod Process
mod Tests
