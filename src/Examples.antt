-- ===== src/Examples.antt =====
-- Tests of the models at concrete inputs.
pub mod Fixtures
pub mod Rules
pub mod Patches
pub mod Web
pub mod Start
pub mod Cluster
pub mod Surroundings
pub mod Run
pub mod Execute
pub mod Admitted
