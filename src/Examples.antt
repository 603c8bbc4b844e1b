-- ===== src/Examples.antt =====
-- A concrete world, settings and states, tests of the model on them, and the theorems at concrete
-- inputs.
pub mod World
pub mod States
pub mod Runs
pub mod Requests
pub mod Refusals
pub mod Pairings
pub mod Outputs
pub mod Asking
pub mod Help
pub mod Sessions
pub mod Waiting
pub mod Terminals
