-- ===== src/Genesis/Execution/Schedule.antt =====
-- When the execution layer forks, by the epochs of the consensus layer
-- (src/etb/genesis/execution_genesis.py).
use ethereum_testnet_bootstr.Base.{
  ℕ, ◌+◌, ◌*◌, ◌≤◌, ◌<◌, ◌≡◌, ◌↔◌, refl, ◌∙◌, some, ok, arith, Option-cases, inl, inr, zero, suc,
}
use ethereum_testnet_bootstr.Config.Forks.{
  ForkVersionName, fork_text, bellatrix, capella, deneb, fork_value, ConsensusFork,
  get_genesis_fork,
}
use ethereum_testnet_bootstr.Config.Forks.Genesis.{IsNamed, get_genesis_fork-ordered}
use ethereum_testnet_bootstr.Config.Times.{
  EtbConfig, epoch_to_time, epoch_to_slot, slot_to_time, preset,
}
use ethereum_testnet_bootstr.Config.Times.Conversions.{
  fork_of, fork_delay-epoch_to_time, slots_per_epoch_pos, seconds_per_slot_pos,
}
use ethereum_testnet_bootstr.Genesis.Execution.{
  ExecutionGenesisWriter, fork_time, fork_block, execution_genesis_writer,
}

fork_time-epoch_to_time :
    (c : EtbConfig) (f : ForkVersionName)
    → fork_time c (fork_text f) ≡ epoch_to_time c (fork_of c.consensus_layer.forks f).epoch
unfolding fork_time
fork_time-epoch_to_time c f = fork_delay-epoch_to_time c f

-- Every writer has a genesis time to count from.
epoch_to_time-genesis :
    (c : EtbConfig) (e : ℕ) {t : ℕ}
    → epoch_to_time c e ≡ ok t
    → (g : ℕ) × (c.genesis_time ≡ some g)
      × (t ≡ g + e * (preset c).slots_per_epoch * (preset c).seconds_per_slot)
unfolding epoch_to_time slot_to_time epoch_to_slot
epoch_to_time-genesis c e h = elim (Option-cases c.genesis_time) [
  | inl timeless ↦ absurd (ground arith)
  | inr (g, timed) ↦ (g, timed, ground arith)
]

-- In a writer that was made, each execution fork is timed at the first second of the epoch of its
-- consensus fork.
pub execution_genesis_writer-times :
    (c : EtbConfig) {w : ExecutionGenesisWriter}
    → execution_genesis_writer c ≡ ok w
    → let t = c.consensus_layer.forks in
      (epoch_to_time c t.bellatrix_fork.epoch ≡ ok w.merge_fork_time)
      × (epoch_to_time c t.capella_fork.epoch ≡ ok w.shanghai_fork_time)
      × (epoch_to_time c t.deneb_fork.epoch ≡ ok w.cancun_fork_time)
unfolding execution_genesis_writer
execution_genesis_writer-times c h = ground (
  arith,
  fork_time-epoch_to_time c bellatrix,
  fork_time-epoch_to_time c capella,
  fork_time-epoch_to_time c deneb,
)

scaled_mono : (a b k s g : ℕ) → a ≤ b → g + a * k * s ≤ g + b * k * s
scaled_mono a b k s g h = grind arith

-- Where the consensus forks are in order, so are the execution forks, and none comes before the
-- genesis time.
pub execution_genesis_writer-ordered :
    (c : EtbConfig) {w : ExecutionGenesisWriter}
    → execution_genesis_writer c ≡ ok w
    → c.consensus_layer.forks.bellatrix_fork.epoch ≤ c.consensus_layer.forks.capella_fork.epoch
    → c.consensus_layer.forks.capella_fork.epoch ≤ c.consensus_layer.forks.deneb_fork.epoch
    → (g : ℕ) × (c.genesis_time ≡ some g)
      × (g ≤ w.merge_fork_time)
      × (w.merge_fork_time ≤ w.shanghai_fork_time)
      × (w.shanghai_fork_time ≤ w.cancun_fork_time)
execution_genesis_writer-ordered c {w} h p q =
    let t = c.consensus_layer.forks in
    let (merge, shanghai, cancun) = execution_genesis_writer-times c h in
    let (g, e, m) = epoch_to_time-genesis c t.bellatrix_fork.epoch merge in
    let (g', e', m') = epoch_to_time-genesis c t.capella_fork.epoch shanghai in
    let (g'', e'', m'') = epoch_to_time-genesis c t.deneb_fork.epoch cancun in
    let same : g' ≡ g = ground arith in
    let same' : g'' ≡ g = ground arith in
    let k = (preset c).slots_per_epoch in
    let s = (preset c).seconds_per_slot in
    (
      g,
      e,
      omega arith,
      omega (arith, scaled_mono t.bellatrix_fork.epoch t.capella_fork.epoch k s g p),
      omega (arith, scaled_mono t.capella_fork.epoch t.deneb_fork.epoch k s g q),
    )

product_zero : (e k s : ℕ) → 0 < k → 0 < s → e * k * s ≡ 0 → e ≡ 0
product_zero zero k s hk hs h = refl
product_zero (suc e) k s hk hs h = absurd (grind arith)

epoch_to_time-at_genesis :
    (c : EtbConfig) (e : ℕ) {t g : ℕ}
    → c.genesis_time ≡ some g
    → epoch_to_time c e ≡ ok t
    → (t ≡ g) ↔ (e ≡ 0)
epoch_to_time-at_genesis c e {t} {g} timed h =
    let b = c.consensus_layer.preset_base in
    let k = (preset c).slots_per_epoch in
    let s = (preset c).seconds_per_slot in
    let (g', timed', sum) = epoch_to_time-genesis c e h in
    let same : g' ≡ g = ground arith in
    (
      λ at. product_zero e k s (slots_per_epoch_pos b) (seconds_per_slot_pos b) (omega arith),
      λ zero_epoch. sum ∙ rw (same, zero_epoch) (omega arith),
    )

blocks_at_genesis :
    (c : EtbConfig) {w : ExecutionGenesisWriter} {f : ConsensusFork}
    → execution_genesis_writer c ≡ ok w
    → get_genesis_fork c.consensus_layer.forks ≡ ok f
    → (fork_value capella ≤ fork_value f.name → w.shanghai_fork_block ≡ 0)
      × (fork_value deneb ≤ fork_value f.name → w.cancun_fork_block ≡ 0)
unfolding execution_genesis_writer fork_block
blocks_at_genesis c h e = ground arith

-- Where the consensus forks are in order, Shanghai is active at the genesis time exactly when the
-- genesis fork is capella or later, and Cancun exactly when it is deneb or later; the fork's block
-- is 0 then.
pub execution_genesis_writer-at_genesis :
    (c : EtbConfig) {w : ExecutionGenesisWriter} {f : ConsensusFork} {g : ℕ}
    → execution_genesis_writer c ≡ ok w
    → IsNamed c.consensus_layer.forks
    → get_genesis_fork c.consensus_layer.forks ≡ ok f
    → c.genesis_time ≡ some g
    → c.consensus_layer.forks.capella_fork.epoch ≤ c.consensus_layer.forks.deneb_fork.epoch
    → c.consensus_layer.forks.deneb_fork.epoch ≤ c.consensus_layer.forks.sharding_fork.epoch
    → ((w.shanghai_fork_time ≡ g) ↔ (fork_value capella ≤ fork_value f.name))
      × ((w.cancun_fork_time ≡ g) ↔ (fork_value deneb ≤ fork_value f.name))
      × (w.shanghai_fork_time ≡ g → w.shanghai_fork_block ≡ 0)
      × (w.cancun_fork_time ≡ g → w.cancun_fork_block ≡ 0)
execution_genesis_writer-at_genesis c {w} {f} {g} h n e t p q =
    let forks = c.consensus_layer.forks in
    let (_, shanghai, cancun) = execution_genesis_writer-times c h in
    let (capella_first, deneb_first) = get_genesis_fork-ordered forks n e p q in
    let (shanghai_block, cancun_block) = blocks_at_genesis c h e in
    let capella_at = epoch_to_time-at_genesis c forks.capella_fork.epoch t shanghai in
    let deneb_at = epoch_to_time-at_genesis c forks.deneb_fork.epoch t cancun in
    (
      (λ s. capella_first.0 (capella_at.0 s), λ s. capella_at.1 (capella_first.1 s)),
      (λ s. deneb_first.0 (deneb_at.0 s), λ s. deneb_at.1 (deneb_first.1 s)),
      λ s. shanghai_block (capella_first.0 (capella_at.0 s)),
      λ s. cancun_block (deneb_first.0 (deneb_at.0 s)),
    )
