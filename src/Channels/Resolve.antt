-- ===== src/Channels/Resolve.antt =====
-- `resolve_channel_targets` of src/udp_analyzer/channels.py, over the resolver.
use ebpf_udp_tcp_analyzer.Base.{
  ℕ, Bool, ◌||◌, String, Option, none, some, List, [], ◌∷◌, map, ◌==◌, nat_eq, if◌then◌else◌,
}
use ebpf_udp_tcp_analyzer.Channels.{ChannelTarget}
use ebpf_udp_tcp_analyzer.Channels.Load.{sorted_set}

-- A row of `getaddrinfo`: the family, and the first element of the address, if it has one.
pub record AddressRow : Type 0 where
  pub family : ℕ
  pub sockaddr : Option String

-- `AF_INET` and `AF_INET6` of Linux
abbrev pub is_inet : ℕ → Bool
is_inet family = (family == 2) || (family == 10)

abbrev pub rows_or_none : Option (List AddressRow) → List AddressRow
rows_or_none none = []
rows_or_none (some rows) = rows

abbrev pub add_address : Option String → List String → List String
add_address none addresses = addresses
add_address (some address) addresses = address ∷ addresses

unfoldable pub addresses_of : List AddressRow → List String
addresses_of [] = []
addresses_of (row ∷ rows) =
    let rest = addresses_of rows in
    if is_inet row.family then add_address row.sockaddr rest else rest

-- The resolver, `none` for its `OSError`.
module _ (resolver : String → ℕ → Option (List AddressRow)) where
  unfoldable pub resolve_target : ChannelTarget → ChannelTarget
  unfolding sorted_set addresses_of
  resolve_target target = record target {
    addresses = sorted_set (addresses_of (rows_or_none (resolver target.host target.port)));
  }

  unfoldable pub resolve_channel_targets : List ChannelTarget → List ChannelTarget
  unfolding resolve_target
  resolve_channel_targets targets = map resolve_target targets
