-- ===== src/Config/Times/Conversions.antt =====
-- The conversions between epochs, slots and seconds (src/etb/config/etb_config.py).
use ethereum_testnet_bootstr.Base.{ℕ, ◌*◌, ◌/◌, ap, ◌≤◌, ◌<◌, ◌≡◌, ◌↔◌, refl, ok, ◌>>=◌, arith, suc}
use ethereum_testnet_bootstr.Config.Presets.{
  PresetBase, minimal, mainnet, mainnet_custom, preset_of,
}
use ethereum_testnet_bootstr.Config.Forks.{
  fork_text, ForkVersionName, phase0, altair, bellatrix, capella, deneb, sharding, ConsensusFork,
  Forks,
}
use ethereum_testnet_bootstr.Config.Times.{
  EtbConfig, preset, epoch_to_slot, slot_to_epoch, slot_to_time, epoch_to_time, plus_number,
  get_consensus_fork_delay_seconds,
}

pub slots_per_epoch_pos : (b : PresetBase) → 0 < (preset_of b).slots_per_epoch
unfolding preset_of
slots_per_epoch_pos minimal = omega arith
slots_per_epoch_pos mainnet = omega arith
slots_per_epoch_pos mainnet_custom = omega arith

pub seconds_per_slot_pos : (b : PresetBase) → 0 < (preset_of b).seconds_per_slot
unfolding preset_of
seconds_per_slot_pos minimal = omega arith
seconds_per_slot_pos mainnet = omega arith
seconds_per_slot_pos mainnet_custom = omega arith

slots_iff :
    (b : PresetBase) (s e : ℕ)
    → let k = (preset_of b).slots_per_epoch in (s / k ≡ e) ↔ ((e * k ≤ s) × (s < suc e * k))
unfolding preset_of
slots_iff minimal s e = (λ h. omega arith, λ h. omega arith)
slots_iff mainnet s e = (λ h. omega arith, λ h. omega arith)
slots_iff mainnet_custom s e = (λ h. omega arith, λ h. omega arith)

-- A slot lies in an epoch exactly when it is neither before the epoch's first slot nor at or after
-- the first slot of the next.
pub slot_to_epoch_iff :
    (c : EtbConfig) (slot epoch : ℕ)
    → (slot_to_epoch c slot ≡ epoch)
      ↔ ((epoch_to_slot c epoch ≤ slot) × (slot < epoch_to_slot c (suc epoch)))
unfolding slot_to_epoch epoch_to_slot
slot_to_epoch_iff c slot epoch = slots_iff c.consensus_layer.preset_base slot epoch

-- The fork that a name stands for.
abbrev pub fork_of : Forks → ForkVersionName → ConsensusFork
fork_of t phase0 = t.phase0_fork
fork_of t altair = t.altair_fork
fork_of t bellatrix = t.bellatrix_fork
fork_of t capella = t.capella_fork
fork_of t deneb = t.deneb_fork
fork_of t sharding = t.sharding_fork

fork_delay :
    (c : EtbConfig) (f : ForkVersionName)
    → get_consensus_fork_delay_seconds c (fork_text f)
      ≡ ok (
          (fork_of c.consensus_layer.forks f).epoch
          * (preset c).seconds_per_slot
          * (preset c).slots_per_epoch)
unfolding get_consensus_fork_delay_seconds
fork_delay c phase0 = refl
fork_delay c altair = refl
fork_delay c bellatrix = refl
fork_delay c capella = refl
fork_delay c deneb = refl
fork_delay c sharding = refl

regroup : (e s k : ℕ) → e * s * k ≡ e * k * s
regroup e s k = omega arith

-- The delay of a fork, counted from the genesis time, is the time at which the fork's epoch begins.
pub fork_delay-epoch_to_time :
    (c : EtbConfig) (f : ForkVersionName)
    → (get_consensus_fork_delay_seconds c (fork_text f) >>= plus_number c.genesis_time)
      ≡ epoch_to_time c (fork_of c.consensus_layer.forks f).epoch
unfolding epoch_to_time slot_to_time epoch_to_slot
fork_delay-epoch_to_time c f = rw (fork_delay c f) (
    ap (plus_number c.genesis_time) (
      regroup (fork_of c.consensus_layer.forks f).epoch (preset c).seconds_per_slot
        (preset c).slots_per_epoch))
