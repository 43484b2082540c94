-- ===== src/Api.antt =====
-- The custom resources of api/v1alpha1.
pub mod Enums
pub mod Types
pub mod Global
pub mod Memory
pub mod Copy
