-- ===== src/Config/Forks/Reading.antt =====
-- What `_get_forks_from_config` and `ConsensusLayerTestnetConfig.__init__` make of a layer.
use mathlib.Core.List.{append-nil, append_assoc, map-append}
use ethereum_testnet_bootstr.Base.{
  ◌≡◌, ◌+◌, refl, ◌∙◌, ap, Result, ok, err, arith, List, [], ◌∷◌, ◌++◌, map, string_eq, >>=-eq-ok,
  Ensures, false, ◌>>=◌, All, ◌<◌, ◌≢◌,
}
use ethereum_testnet_bootstr.Config.Forks.{
  ForkVersionName, deneb, sharding, ConsensusFork, LayerEntries, Forks, required_forks,
  optional_forks, required_fork, optional_fork, append_required, append_optional,
  get_forks_from_config, unpack_forks, read_forks, optional_version, optional_epoch, ConsensusLayer,
  consensus_layer, get_genesis_fork, fork_value, has_field, version_key, epoch_key, far_future,
  check_required,
}
use ethereum_testnet_bootstr.Config.Forks.Genesis.{IsNamed, fork_list, get_genesis_fork-latest}

abbrev pub names : List ConsensusFork → List ForkVersionName
names = map (λ f. f.name)

required_fork-name :
    (c : LayerEntries) (f : ForkVersionName) {g : ConsensusFork}
    → required_fork c f ≡ ok g
    → g.name ≡ f
unfolding required_fork
required_fork-name c f h = ground arith

optional_fork-name :
    (c : LayerEntries) (forks : List ConsensusFork) (f : ForkVersionName) {g : ConsensusFork}
    → optional_fork c forks f ≡ ok g
    → g.name ≡ f
unfolding optional_fork
optional_fork-name c forks f h =
    let (version, _, h') = >>=-eq-ok (optional_version c forks f) _ h in
    let (epoch, _, made) = >>=-eq-ok (optional_epoch c f) _ h' in ground arith

names-append :
    (forks : List ConsensusFork) (g : ConsensusFork) (f : ForkVersionName)
    (fs : List ForkVersionName)
    → g.name ≡ f
    → names (forks ++ (g ∷ [])) ++ fs ≡ names forks ++ (f ∷ fs)
names-append forks g f fs h = rw (map-append, h, append_assoc)

names-append_required :
    (c : LayerEntries) (fs : List ForkVersionName) (forks : List ConsensusFork)
    {r : List ConsensusFork}
    → append_required c fs forks ≡ ok r
    → names r ≡ names forks ++ fs
unfolding append_required
names-append_required c [] forks h = ground (arith, append-nil (names forks))
names-append_required c (f ∷ fs) forks h =
    let (g, first, rest) = >>=-eq-ok (required_fork c f) _ h in
    names-append_required c fs (forks ++ (g ∷ [])) rest
    ∙ names-append forks g f fs (required_fork-name c f first)

-- Deneb and sharding never happen, and have the versions after capella's.
pub record HasDefaults (t : Forks) : Type 0 where
  pub deneb_version : t.deneb_fork.version ≡ t.capella_fork.version + 1
  pub deneb_epoch : t.deneb_fork.epoch ≡ far_future
  pub sharding_version : t.sharding_fork.version ≡ t.capella_fork.version + 2
  pub sharding_epoch : t.sharding_fork.epoch ≡ far_future

names-append_optional :
    (c : LayerEntries) (fs : List ForkVersionName) (forks : List ConsensusFork)
    {r : List ConsensusFork}
    → append_optional c fs forks ≡ ok r
    → names r ≡ names forks ++ fs
unfolding append_optional
names-append_optional c [] forks h = ground (arith, append-nil (names forks))
names-append_optional c (f ∷ fs) forks h =
    let (g, first, rest) = >>=-eq-ok (optional_fork c forks f) _ h in
    names-append_optional c fs (forks ++ (g ∷ [])) rest
    ∙ names-append forks g f fs (optional_fork-name c forks f first)

all_names : List ForkVersionName
all_names = required_forks ++ optional_forks

names-get_forks_from_config :
    (c : LayerEntries) {r : List ConsensusFork}
    → get_forks_from_config c ≡ ok r
    → names r ≡ all_names
unfolding get_forks_from_config all_names
names-get_forks_from_config c h =
    let (_, _, h') = >>=-eq-ok (check_required required_forks c) _ h in
    let (forks, first, rest) = >>=-eq-ok (append_required c required_forks []) _ h' in
    names-append_optional c optional_forks forks rest
    ∙ ap (λ ns. ns ++ optional_forks) (names-append_required c required_forks [] first)

unpack_forks-total :
    (r : List ConsensusFork)
    → names r ≡ all_names
    → (t : Forks) × (unpack_forks r ≡ ok t) × IsNamed t
unfolding unpack_forks all_names
unpack_forks-total (a ∷ b ∷ c ∷ d ∷ e ∷ f ∷ []) h = (_, refl, ground arith)
unpack_forks-total _ h = cc

get_forks_from_config-names :
    (c : LayerEntries) → Ensures (λ r. names r ≡ all_names) (get_forks_from_config c)
get_forks_from_config-names c =
    go (get_forks_from_config c) (λ r h. names-get_forks_from_config c h)
  where
    go :
        (m : Result (List ConsensusFork))
        → ((r : List ConsensusFork) → m ≡ ok r → names r ≡ all_names)
        → Ensures (λ r. names r ≡ all_names) m
    go (ok r) h = h r refl
    go (err e) h = tt

unpack_forks-IsNamed :
    (m : Result (List ConsensusFork))
    → Ensures (λ r. names r ≡ all_names) m
    → Ensures IsNamed (m >>= unpack_forks)
unpack_forks-IsNamed (ok r) h = rw unpacked named
  where
    unpacked : unpack_forks r ≡ ok (unpack_forks-total r h).0
    unpacked = (unpack_forks-total r h).1

    named : IsNamed (unpack_forks-total r h).0
    named = (unpack_forks-total r h).2
unpack_forks-IsNamed (err e) h = tt

-- Where the forks of a layer can be read, they fill the six attributes, each in its own place.
pub read_forks-IsNamed : (c : LayerEntries) → Ensures IsNamed (read_forks c)
unfolding read_forks
read_forks-IsNamed c =
    unpack_forks-IsNamed (get_forks_from_config c) (get_forks_from_config-names c)

-- Every layer that is accepted has its forks in their places.
pub consensus_layer-IsNamed :
    (c : LayerEntries) {l : ConsensusLayer} → consensus_layer c ≡ ok l → IsNamed l.forks
unfolding consensus_layer
consensus_layer-IsNamed c h = ground (arith, read_forks-IsNamed c)

-- The fork that an accepted layer has for its genesis fork is active at epoch 0, and every fork
-- that comes after it by name is not.
pub get_genesis_fork-consensus_layer :
    (c : LayerEntries) {l : ConsensusLayer} {f : ConsensusFork}
    → consensus_layer c ≡ ok l
    → get_genesis_fork l.forks ≡ ok f
    → (f.epoch ≡ 0)
      × All
          (λ (g : ConsensusFork). (fork_value f.name < fork_value g.name) → g.epoch ≢ 0)
          (fork_list l.forks)
get_genesis_fork-consensus_layer c {l} h e =
    get_genesis_fork-latest l.forks (consensus_layer-IsNamed c h) e

appended_optional :
    (c : LayerEntries) (forks : List ConsensusFork) {r : List ConsensusFork}
    → names forks ≡ required_forks
    → append_optional c optional_forks forks ≡ ok r
    → has_field (version_key deneb) c ≡ false
    → has_field (epoch_key deneb) c ≡ false
    → has_field (version_key sharding) c ≡ false
    → has_field (epoch_key sharding) c ≡ false
    → Ensures HasDefaults (unpack_forks r)
unfolding append_optional optional_fork optional_version optional_epoch unpack_forks
appended_optional c (f1 ∷ f2 ∷ f3 ∷ f4 ∷ []) n h a b d e = ground arith
appended_optional c _ n h a b d e = cc

-- The forks that a layer leaves out never happen, and take the versions that follow capella's.
pub read_forks-HasDefaults :
    (c : LayerEntries) {t : Forks}
    → read_forks c ≡ ok t
    → has_field (version_key deneb) c ≡ false
    → has_field (epoch_key deneb) c ≡ false
    → has_field (version_key sharding) c ≡ false
    → has_field (epoch_key sharding) c ≡ false
    → HasDefaults t
unfolding read_forks get_forks_from_config
read_forks-HasDefaults c h a b d e =
    let (r, read, unpacked) = >>=-eq-ok (get_forks_from_config c) _ h in
    let (_, _, h') = >>=-eq-ok (check_required required_forks c) _ read in
    let (forks, first, rest) = >>=-eq-ok (append_required c required_forks []) _ h' in
    rw unpacked at
      (appended_optional c forks (names-append_required c required_forks [] first) rest a b d e)
