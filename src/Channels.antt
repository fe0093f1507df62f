-- ===== src/Channels.antt =====
-- src/udp_analyzer/channels.py: the catalog of channels, one for each systemd unit, and the unit of
-- a process (`unit_from_cgroup_text` of tcp_channel.py).
pub mod Matching
pub mod Units
pub mod Urls
pub mod Load
pub mod Targets
pub mod Resolve
pub mod Resolved
use ebpf_udp_tcp_analyzer.Base.{
  ℕ, Bool, true, false, not, ◌&&◌, ◌||◌, String, Option, none, some, List, [], ◌∷◌, foldl, ◌==◌,
  nat_eq, string_eq, if◌then◌else◌,
}
use ebpf_udp_tcp_analyzer.Base.Dict.{Dict, get, put}
use ebpf_udp_tcp_analyzer.Base.Text.{split_on, split_lines, after_last, starts_with, ends_with}

pub record ChannelTarget : Type 0 where
  pub channel : String
  pub unit : String
  pub url : String
  pub scheme : String
  pub host : String
  pub port : ℕ
  pub path : String
  pub addresses : List String

pub record ChannelMatch : Type 0 where
  pub target : Option ChannelTarget
  pub status : String

pub record ChannelCatalog : Type 0 where
  pub targets : List ChannelTarget
  pub by_unit : Dict String ChannelTarget

-- `{target.unit: target for target in targets}`: a later target replaces one of the same unit.
unfoldable pub catalog_of : List ChannelTarget → ChannelCatalog
catalog_of targets = record {
  targets = targets;
  by_unit = foldl (λ d (target : ChannelTarget). put target.unit target d) [] targets;
}

unfoldable pub contains : String → List String → Bool
contains x [] = false
contains x (y ∷ ys) = (y == x) || contains x ys

abbrev pub is_empty : List String → Bool
is_empty [] = true
is_empty (x ∷ xs) = false

-- The tests of `match` once a target is found.
unfoldable pub match_target : ChannelTarget → String → ℕ → ChannelMatch
unfolding contains
match_target target dst_ip dst_port =
    if not (target.port == dst_port)
    then record { target = some target; status = "unexpected_flow" }
    else if not (is_empty target.addresses) && not (contains dst_ip target.addresses)
    then record { target = some target; status = "unexpected_flow" }
    else record { target = some target; status = "matched" }

-- The result for the target that `by_unit.get(unit)` found.
unfoldable pub match_found : Option ChannelTarget → String → ℕ → ChannelMatch
unfolding match_target
match_found none dst_ip dst_port = record { target = none; status = "unknown_unit" }
match_found (some target) dst_ip dst_port = match_target target dst_ip dst_port

-- `ChannelCatalog.match`
unfoldable pub match_flow : ChannelCatalog → String → String → ℕ → ChannelMatch
unfolding match_found
match_flow catalog unit dst_ip dst_port = match_found (get unit catalog.by_unit) dst_ip dst_port

unfoldable pub is_unit_part : String → Bool
unfolding ends_with starts_with
is_unit_part part = ends_with part ".service" && not (starts_with part "user@")

-- The last part that names a unit, going on from one found before.
unfoldable pub last_unit_part : Option String → List String → Option String
unfolding is_unit_part
last_unit_part found [] = found
last_unit_part found (part ∷ parts) =
    last_unit_part (if is_unit_part part then some part else found) parts

unfoldable pub last_unit : Option String → List String → Option String
unfolding last_unit_part after_last split_on
last_unit found [] = found
last_unit found (line ∷ lines) =
    last_unit
      (elim (after_last b':' line) [
        | none ↦ found
        | some path ↦ last_unit_part found (split_on b'/' path)
      ])
      lines

abbrev pub or_blank : Option String → String
or_blank none = ""
or_blank (some s) = s

-- `candidates[-1] if candidates else ""`
unfoldable pub unit_from_cgroup_text : String → String
unfolding last_unit split_lines
unit_from_cgroup_text text = or_blank (last_unit none (split_lines text))
