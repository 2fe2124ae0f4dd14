-- ===== src/Examples.antt =====
-- Runs of the modelled code of this repository at concrete inputs.
pub mod Clocks
pub mod Metrics
pub mod Requests
pub mod Configs
pub mod Validators
pub mod Genesis
pub mod Pairing
pub mod Phases
pub mod NodeWatch
pub mod Bootstrap
pub mod Environment
mod Monitors
mod Defaults
mod Trees
mod Generated
mod Reports
mod Files
mod Tools
