-- ===== src/Bootstrap.antt =====
-- `EthereumTestnetBootstrapper` of src/testnet_bootstrapper.py.
pub mod Keystores
pub mod Pairing
pub mod Phases
pub mod Assertoor
pub mod Prometheus
pub mod Init
