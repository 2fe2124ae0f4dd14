-- ===== src/Config/Ips.antt =====
-- The addresses (src/etb/config/etb_config.py): `_find_used_ip_addresses`,
-- `_get_next_available_ip_suffix`, the part of the populating loops that gives out addresses, and
-- `Instance.get_ip_address`.
pub mod Used
pub mod Given
pub mod Addresses
use ethereum_testnet_bootstr.Base.{
  ℕ, zero, suc, ◌+◌, String, ◌<>◌, Bool, true, false, Option, none, some, List, [], ◌∷◌, length,
  Result, ok, err, Error, ◌>>=◌, or_raise, ◌==◌, nat_eq, string_eq, if◌then◌else◌,
}
use ethereum_testnet_bootstr.Base.Dict.{Dict, lookup, has_key, insert}
use ethereum_testnet_bootstr.Base.Text.{
  str, int_of, split_dots, join_dots, last_part, drop_last, first_three,
}

-- The fields of an entry under `generic-instances` or `client-instances` that the populating code
-- reads and writes. `none` is a field that is not there.
pub record InstanceEntry : Type 0 where
  pub image : Option String
  pub tag : Option String
  pub num_nodes : Option ℕ
  pub start_ip_address : Option String
  pub validator_offset_start : Option ℕ
  pub consensus_config : String
  pub execution_config : String
  pub additional_env : Option (Dict String String)

abbrev pub Instances : Type 0
Instances = Dict String InstanceEntry

-- The suffixes in use, each with the name that took it.
abbrev pub Reserved : Type 0
Reserved = Dict ℕ String

-- `DEFAULT_GENERIC_INSTANCE_NUM_NODES`
abbrev pub default_num_nodes : ℕ
default_num_nodes = 1

unfoldable pub num_nodes_of : InstanceEntry → ℕ
num_nodes_of e = elim e.num_nodes [ none ↦ default_num_nodes | some n ↦ n ]

-- `int(address.split('.')[-1])`
unfoldable pub ip_suffix : String → Result ℕ
ip_suffix address = or_raise (int_of (last_part (split_dots address))) (Error.value_error address)

-- `for _ in range(num_nodes)` of `_find_used_ip_addresses`: the rounds left, `ndx` and `curr_ip`.
unfoldable pub use_range : ℕ → String → ℕ → ℕ → Reserved → Result Reserved
use_range zero name ndx curr_ip used = ok used
use_range (suc rounds) name ndx curr_ip used = elim (lookup curr_ip used) [
  | some other ↦ err (Error.overlapping_ip_range name other)
  | none ↦ use_range rounds name (ndx + 1) (curr_ip + 1) (insert curr_ip (name <> str ndx) used)
]

unfoldable pub use_entry : String → InstanceEntry → Reserved → Result Reserved
use_entry name e used = elim e.start_ip_address [
  | none ↦ ok used
  | some address ↦ ip_suffix address >>= λ start. use_range (num_nodes_of e) name 0 start used
]

-- The loop over one mapping of instances.
unfoldable pub use_instances : Instances → Reserved → Result Reserved
use_instances [] used = ok used
use_instances ((name, e) ∷ es) used = use_entry name e used >>= λ used'. use_instances es used'

-- The two sections of the etb-config file that hold instances.
pub record YamlInstances : Type 0 where
  pub generic_instances : Option Instances
  pub client_instances : Option Instances

-- `_find_used_ip_addresses`
unfoldable pub find_used_ip_addresses : YamlInstances → Result Reserved
find_used_ip_addresses c = do
  used ← (elim c.generic_instances [ none ↦ ok [] | some es ↦ use_instances es [] ])
  clients ← or_raise c.client_instances (Error.key_error "client-instances")
  use_instances clients used

-- The attributes that the allocation keeps.
pub record IpState : Type 0 where
  pub reserved_ips : Reserved
  pub curr_ip : ℕ

-- The loop of `_get_next_available_ip_suffix`. Its fuel is the number of reserved addresses, of
-- which each round but the last passes one.
unfoldable pub next_free : ℕ → ℕ → Reserved → ℕ
next_free zero curr_ip reserved = curr_ip
next_free (suc fuel) curr_ip reserved =
    let rest = next_free fuel (curr_ip + 1) reserved in
    if has_key curr_ip reserved then rest else curr_ip

-- `_get_next_available_ip_suffix`
unfoldable pub get_next_available_ip_suffix : String → IpState → ℕ × IpState
get_next_available_ip_suffix client_name s =
    let suffix = next_free (length s.reserved_ips) s.curr_ip s.reserved_ips in
    (
      suffix,
      record { reserved_ips = insert suffix client_name s.reserved_ips; curr_ip = suffix + 1 },
    )

-- `for _ in range(num_nodes): reserved_ips[ip_suffix] = instance_name; ip_suffix += 1`
unfoldable pub reserve_range : ℕ → String → ℕ → Reserved → Reserved
reserve_range zero name suffix reserved = reserved
reserve_range (suc rounds) name suffix reserved =
    reserve_range rounds name (suffix + 1) (insert suffix name reserved)

-- What the populating loops do for an instance with no address: the suffix that they give it.
unfoldable pub give_suffix : String → ℕ → IpState → ℕ × IpState
give_suffix name num_nodes s =
    let (suffix, s') = get_next_available_ip_suffix name s in
    (suffix, record s' { reserved_ips = reserve_range num_nodes name suffix s'.reserved_ips })

-- The `start-ip-address` step of both populating loops, where the entry's `num-nodes` is filled in.
unfoldable pub populate_address :
    String → String → InstanceEntry → IpState → InstanceEntry × IpState
populate_address ip_prefix name e s = elim e.start_ip_address [
  | some address ↦ (e, s)
  | none ↦
      let (suffix, s') = give_suffix name (num_nodes_of e) s in
      (record e { start_ip_address = some (ip_prefix <> str suffix) }, s')
]

-- `ip_prefix`, from the subnet of the docker config.
unfoldable pub ip_prefix_of : String → String
ip_prefix_of subnet = join_dots (drop_last (split_dots subnet)) <> "."

-- `Instance.get_ip_address`
unfoldable pub get_ip_address : String → ℕ → Result String
get_ip_address start_ip_address ndx = do
  base ← ip_suffix start_ip_address
  ok ((join_dots (first_three (split_dots start_ip_address)) <> ".") <> str (base + ndx))
