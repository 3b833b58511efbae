-- ===== src/Graffiti.antt =====
-- pkg/graffiti: whether a rule applies to an object, and the JSON patch that it makes.
pub mod Json
pub mod JsonText
pub mod Libs
pub mod Operator
pub mod Selectors
pub mod Matchers
pub mod FieldMap
pub mod Patch
pub mod Payload
pub mod Rule
