-- ===== src/Config/Forks/Genesis.antt =====
-- Which fork is the genesis fork.
use ethereum_testnet_bootstr.Base.{
  ◌≡◌, ◌≢◌, ◌↔◌, ◌≤◌, ◌<◌, ok, err, Error, arith, List, [], ◌∷◌, All, nat_eq,
}
use ethereum_testnet_bootstr.Config.Forks.{
  phase0, altair, bellatrix, capella, deneb, sharding, fork_value, ConsensusFork, Forks,
  get_genesis_fork,
}

-- The forks in the order in which they happen.
abbrev pub fork_list : Forks → List ConsensusFork
fork_list t =
    t.phase0_fork ∷ t.altair_fork ∷ t.bellatrix_fork ∷ t.capella_fork ∷ t.deneb_fork
    ∷ t.sharding_fork ∷ []

-- Each attribute holds the fork that it is named for, as `_get_forks_from_config` builds them.
pub record IsNamed (t : Forks) : Type 0 where
  pub phase0_named : t.phase0_fork.name ≡ phase0
  pub altair_named : t.altair_fork.name ≡ altair
  pub bellatrix_named : t.bellatrix_fork.name ≡ bellatrix
  pub capella_named : t.capella_fork.name ≡ capella
  pub deneb_named : t.deneb_fork.name ≡ deneb
  pub sharding_named : t.sharding_fork.name ≡ sharding

-- The fork that `get_genesis_fork` returns is active at epoch 0, and every fork that comes after it
-- by name is not.
pub get_genesis_fork-latest :
    (t : Forks) {f : ConsensusFork}
    → IsNamed t
    → get_genesis_fork t ≡ ok f
    → (f.epoch ≡ 0)
      × All
          (λ (g : ConsensusFork). (fork_value f.name < fork_value g.name) → g.epoch ≢ 0)
          (fork_list t)
unfolding get_genesis_fork
get_genesis_fork-latest t n h = ground arith

-- It raises exactly when no fork is active at epoch 0.
pub get_genesis_fork-raises :
    (t : Forks)
    → (get_genesis_fork t ≡ err Error.no_genesis_fork)
      ↔ All (λ (g : ConsensusFork). g.epoch ≢ 0) (fork_list t)
unfolding get_genesis_fork
get_genesis_fork-raises t = ground arith

-- With the forks in order, capella and deneb are active at genesis exactly when the genesis fork is
-- not before them.
pub get_genesis_fork-ordered :
    (t : Forks) {f : ConsensusFork}
    → IsNamed t
    → get_genesis_fork t ≡ ok f
    → t.capella_fork.epoch ≤ t.deneb_fork.epoch
    → t.deneb_fork.epoch ≤ t.sharding_fork.epoch
    → ((t.capella_fork.epoch ≡ 0) ↔ (fork_value capella ≤ fork_value f.name))
      × ((t.deneb_fork.epoch ≡ 0) ↔ (fork_value deneb ≤ fork_value f.name))
unfolding get_genesis_fork
get_genesis_fork-ordered t n h p q = ground arith
