-- ===== src/Lib.antt =====
-- The bootstrapper of Ethereum testnets: reading the etb-config file, giving out addresses and
-- validators, the genesis of both layers' forks, the keystores, and the monitors of a running testnet.
--
-- The parts and how they interact. `ETBConfig` (src/etb/config/etb_config.py) reads the file, fills in
-- defaults and makes the instances; the genesis writer and the bootstrapper
-- (src/etb/genesis/execution_genesis.py, src/testnet_bootstrapper.py) take forks, times and instances
-- from it; the monitors and checkers (src/etb/monitoring, src/antithesis_checker.py,
-- src/fork_detector.py) ask the instances for their state by the requests of
-- src/etb/interfaces/client_request.py.
--
-- Config: Presets are the presets of src/etb/common/consensus.py, Forks is
-- `ConsensusLayerTestnetConfig`, Times the conversions of `ETBConfig`, Ips the addresses, Validators
-- the validator offsets, Instances the instances that `ETBConfig.__init__` makes. A mapping of the file
-- is a record of what the code reads of it; a key that is not there is `none`, or raises where the code
-- raises.
-- Files (under Config) is `FilesConfig` with the global variables of the docker-compose file. The order
-- in which Python goes through a set is passed in, as a function that keeps the members.
-- Defaults (under Config) is `_populate_execution_configs` and `_populate_consensus_configs` with their
-- tables; `deep_update` is pydantic's and is passed in. Environment (under Config) is `get_env_vars` and
-- `get_docker_compose_repr`, as dicts of variables and records of services.
-- Genesis: Consensus is `ConsensusGenesisWriter`, with the tool that it calls passed in, and its child
-- Settings the config that it writes; Execution is
-- `ExecutionGenesisWriter.__init__`, Files the genesis files of Geth, Besu and Nethermind. The accounts
-- of a mnemonic are web3's and are passed in, as is the JSON of the contracts.
-- Bootstrap: Keystores is `_write_validator_keystores`, as the list of ranges that it generates,
-- and Pairing `_pair_execution_clients`, as the list of the pairs that it makes. The search for the
-- admin API by a regular expression is passed in. Phases is `bootstrap_testnet`, as the list of the files
-- that it opens, writes and copies, of its attempts to pair and its sleeps. Assertoor is
-- `generate_assertor_config` with `serialize_to_yaml` of src/etb/config/assertor.py, and Prometheus
-- `make_prometheus_config`. Init is `init_testnet`, as the list of what it does to the disk.
-- Requests: the retries of `perform_request` and `perform_batched_request`. What an attempt gives is
-- the network's, a function of the number of the attempt. Payloads is what the kinds of request ask, and
-- Bodies what they read of a response.
-- Monitoring: of src/etb/monitoring/monitors/consensus_monitors.py, Metrics is the two general monitors,
-- Availability the two availability checks, Parsers and Reports the heads, blobs and checkpoints, and
-- Peering `ConsensusLayerPeeringSummary`; Clock is
-- `TestnetMonitor`. The clock is a number of seconds; what it shows after a sleep is a
-- function that is passed in.
-- Checker: the heads, the consensus, the validators and the phases of src/antithesis_checker.py; a finite
-- status check is the list of its prints, each with the clock.
-- NodeWatch: the flags and the Prometheus actions of src/node_watch.py.
-- ForkDetector: the chains, skipped slots, groups and tree of src/fork_detector.py, with its prints.
-- Tools: the wrappers of src/etb/interfaces/external, as the commands that they run and what they make
-- of what a run comes to; the programs are passed in.
-- Examples: runs at concrete inputs.
--
-- A call that may raise returns a `Result`, whose error names the exception. The store that methods
-- mutate is passed from call to call. The search for a free address has the number of reserved
-- addresses as its fuel, which is enough, as each round but the last passes one of them. `wait_for_slot`
-- has a number of sleeps as its fuel; one for each second that is left is enough. The walk over a chain
-- has the code's own counter. The loops of a status check have a number of rounds as their fuel; one for
-- each slot that is left is enough. A run that acts before it returns is a list of actions and an ending
-- (Base/Runs), so that what was done before an exception is kept. Texts of numbers are decimal
-- digits without a sign.
--
-- Not modelled: the reading and writing of YAML and of files, logging, the threads of the executors (a
-- batch is asked in the order of its clients), the transaction and operation spammers, the printing of
-- keys, the request for the deposit contract's block, and the comments of the consensus config. The
-- values that a monitor groups are taken as hashable; a slot that is a JSON list or object, by which
-- Python raises a `TypeError`, is outside the model.
pub mod Base
pub mod Config
pub mod Genesis
pub mod Requests
pub mod Checker
pub mod ForkDetector
pub mod NodeWatch
pub mod Monitoring
pub mod Bootstrap
pub mod Tools
pub mod Examples
