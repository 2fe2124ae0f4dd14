-- ===== src/Config.antt =====
-- The etb-config file (src/etb/config/etb_config.py): the testnet's forks and times, the
-- addresses and the validators that the defaults give out.
pub mod Presets
pub mod Forks
pub mod Times
pub mod Ips
pub mod Validators
pub mod Instances
pub mod Environment
pub mod Defaults
pub mod Files
