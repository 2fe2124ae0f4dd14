-- ===== src/Config/Ips/Addresses.antt =====
-- From the subnet to the address of an instance's node.
use ethereum_testnet_bootstr.Base.{ℕ, ◌+◌, ◌≡◌, refl, String, ◌<>◌, ◌∷◌, ok}
use ethereum_testnet_bootstr.Base.Text.{str, split_dots, join_dots}
use ethereum_testnet_bootstr.Base.Text.Decimal.{
  NoDot, split_dots-append, split_dots-str, split_dots-NoDot, int_of-str,
}
use ethereum_testnet_bootstr.Config.Ips.{ip_suffix, ip_prefix_of, get_ip_address}
use text.Mathlib.TextLemmas.{append_assoc}

-- `a.b.c.`, as the model writes it.
abbrev pub dotted : String → String → String → String
dotted a b c = (a <> ("." <> (b <> ("." <> c)))) <> "."

split_dots-dotted :
    (a b c rest : String)
    → NoDot a
    → NoDot b
    → NoDot c
    → split_dots (dotted a b c <> rest) ≡ a ∷ b ∷ c ∷ split_dots rest
split_dots-dotted a b c rest ha hb hc = simp append_assoc (
    rw (
      split_dots-append a (b <> ("." <> (c <> ("." <> rest)))) ha,
      split_dots-append b (c <> ("." <> rest)) hb,
      split_dots-append c rest hc,
    ))

-- The prefix of a subnet `a.b.c.rest`.
pub ip_prefix_of-dotted :
    (a b c rest : String)
    → NoDot a
    → NoDot b
    → NoDot c
    → NoDot rest
    → ip_prefix_of (dotted a b c <> rest) ≡ dotted a b c
unfolding ip_prefix_of join_dots
ip_prefix_of-dotted a b c rest ha hb hc hr =
    rw (split_dots-dotted a b c rest ha hb hc, split_dots-NoDot rest hr) refl

-- The address that the populating loops write for a suffix is read back as the address of each node:
-- the prefix with the suffix and the node's number added.
pub get_ip_address-dotted :
    (a b c : String) (suffix ndx : ℕ)
    → NoDot a
    → NoDot b
    → NoDot c
    → get_ip_address (dotted a b c <> str suffix) ndx ≡ ok (dotted a b c <> str (suffix + ndx))
unfolding get_ip_address ip_suffix join_dots
get_ip_address-dotted a b c suffix ndx ha hb hc =
    simp (split_dots-dotted a b c (str suffix) ha hb hc, split_dots-str suffix, int_of-str suffix)
