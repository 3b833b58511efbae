-- ===== src/Existing.antt =====
-- pkg/existing: the check of the objects that exist when the program starts.
pub mod Targets
pub mod Namespaces
pub mod Objects
pub mod Paging
pub mod Groups
pub mod Discovery
