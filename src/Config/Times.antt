-- ===== src/Config/Times.antt =====
-- The object that `ETBConfig` is (src/etb/config/etb_config.py), as far as it tells the times of
-- the testnet: its conversions between epochs, slots and seconds, and the delays of the forks.
pub mod Conversions
use ethereum_testnet_bootstr.Base.{
  ℕ, ◌+◌, ◌*◌, ◌/◌, String, Bool, true, false, not, Option, none, some, List, [], ◌∷◌, Result, ok,
  err, Error, ◌>>=◌, or_raise, ◌==◌, nat_eq, string_eq, if◌then◌else◌,
}
use ethereum_testnet_bootstr.Base.Dict.{Dict, lookup, insert}
use ethereum_testnet_bootstr.Config.Presets.{Preset, preset_of}
use ethereum_testnet_bootstr.Config.Forks.{ConsensusLayer, Forks, far_future}

-- The attributes that the times rest on, with the numbers of the execution layer's config.
pub record EtbConfig : Type 0 where
  pub consensus_layer : ConsensusLayer
  pub seconds_per_eth1_block : ℕ
  pub chain_id : ℕ
  pub network_id : ℕ
  pub genesis_time : Option ℕ
  pub dynamic_entries : Dict String ℕ

-- `testnet_config.consensus_layer.preset_base`
abbrev pub preset : EtbConfig → Preset
preset c = preset_of c.consensus_layer.preset_base

-- `is_deneb`
unfoldable pub is_deneb : EtbConfig → Bool
is_deneb c = not (c.consensus_layer.forks.deneb_fork.epoch == far_future)

unfoldable pub epoch_to_slot : EtbConfig → ℕ → ℕ
epoch_to_slot c epoch = epoch * (preset c).slots_per_epoch

-- `a + b` where `a` may be `None`.
abbrev pub plus_number : Option ℕ → ℕ → Result ℕ
plus_number none n = err (Error.value_error "unsupported operand None")
plus_number (some t) n = ok (t + n)

unfoldable pub slot_to_time : EtbConfig → ℕ → Result ℕ
slot_to_time c slot = plus_number c.genesis_time (slot * (preset c).seconds_per_slot)

unfoldable pub epoch_to_time : EtbConfig → ℕ → Result ℕ
epoch_to_time c epoch = slot_to_time c (epoch_to_slot c epoch)

unfoldable pub slot_to_epoch : EtbConfig → ℕ → ℕ
slot_to_epoch c slot = slot / (preset c).slots_per_epoch

-- The `epoch_map` of `get_consensus_fork_delay_seconds`.
unfoldable pub epoch_map : Forks → Dict String ℕ
epoch_map t =
    ("phase0", t.phase0_fork.epoch)
    ∷ ("altair", t.altair_fork.epoch)
    ∷ ("bellatrix", t.bellatrix_fork.epoch)
    ∷ ("capella", t.capella_fork.epoch)
    ∷ ("deneb", t.deneb_fork.epoch)
    ∷ ("sharding", t.sharding_fork.epoch)
    ∷ []

unfoldable pub get_consensus_fork_delay_seconds : EtbConfig → String → Result ℕ
unfolding epoch_map string_eq
get_consensus_fork_delay_seconds c fork_name = do
  fork_epoch ←
      or_raise (lookup fork_name (epoch_map c.consensus_layer.forks))
        (Error.unknown "fork name" fork_name)
  ok (fork_epoch * (preset c).seconds_per_slot * (preset c).slots_per_epoch)

unfoldable pub set_genesis_time : EtbConfig → ℕ → EtbConfig
set_genesis_time c t = record c {
  dynamic_entries = insert "genesis-time" t c.dynamic_entries;
  genesis_time = some t;
}
