-- ===== src/PromLabel.antt =====
-- internal/promlabel: Prometheus label matchers enforced on forwarded requests.
pub mod Scope
pub mod Silences
pub mod Filter
pub mod Resolve
pub mod Handler
pub mod Serve
pub mod Validate
mod Tests
