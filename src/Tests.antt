-- ===== src/Tests.antt =====
-- Runs of the components on small inputs, at which the theorems apply.
pub mod Fixtures
pub mod Completeness
pub mod Controller
pub mod Processor
pub mod Models
pub mod Storage
pub mod Transformer
pub mod Api
pub mod Extractor
pub mod Exporter
pub mod Search
pub mod Connection
pub mod System
pub mod Stopping
