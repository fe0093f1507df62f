-- ===== src/Ingress/Wire.antt =====
-- Entries of the map `udp_ingress_counters`: `parse_bpftool_entry` and what it calls
-- (src/udp_analyzer/ebpf.py).
use ebpf_udp_tcp_analyzer.Base.{
  ℕ, ◌+◌, ◌≡◌, ◌↔◌, Bool, true, ◌&&◌, List, [], ◌∷◌, length, ltb, if◌then◌else◌, Eq, ◌==◌, nat_eq,
  arith,
}
use ebpf_udp_tcp_analyzer.Errors.{Result, ok, err, runtime_error, struct_error, ◌>>=◌}
use ebpf_udp_tcp_analyzer.Bpftool.Json.{
  Json, null, obj, Fields, int_field, get_field, iterate, raw_bytes,
}
use ebpf_udp_tcp_analyzer.Bpftool.Struct.{Field, uint, pad, unpack, take}
use ebpf_udp_tcp_analyzer.Checkpoint.{Counting}

pub record UdpMapKey : Type 0 where
  pub family : ℕ
  pub ip_proto : ℕ
  pub src_port : ℕ
  pub dst_port : ℕ
  pub ifindex : ℕ
  pub src_ip4 : ℕ
  pub dst_ip4 : ℕ

abbrev pub KeyIdentity : Type 0
KeyIdentity = ℕ × ℕ × ℕ × ℕ × ℕ × ℕ × ℕ

abbrev pub identity : UdpMapKey → KeyIdentity
identity k = (k.family, k.ip_proto, k.src_port, k.dst_port, k.ifindex, k.src_ip4, k.dst_ip4)

pub record UdpMapCounters : Type 0 where
  pub packets : ℕ
  pub bytes : ℕ

pub record UdpMapEntry : Type 0 where
  pub key : UdpMapKey
  pub counters : UdpMapCounters

abbrev pub no_counters : UdpMapCounters
no_counters = record { packets = 0; bytes = 0 }

abbrev pub add_counters : UdpMapCounters → UdpMapCounters → UdpMapCounters
add_counters a b = record { packets = a.packets + b.packets; bytes = a.bytes + b.bytes }

-- `(acc.packets if acc else 0) + entry.counters.packets`, and the same for the bytes.
abbrev pub udp_counting : Counting UdpMapCounters
udp_counting = record { zero = no_counters; add = add_counters }

-- `<BBHH2xIII`
abbrev pub udp_key_format : List Field
udp_key_format = uint 1 ∷ uint 1 ∷ uint 2 ∷ uint 2 ∷ pad 2 ∷ uint 4 ∷ uint 4 ∷ uint 4 ∷ []

-- `<QQ`
abbrev pub udp_counters_format : List Field
udp_counters_format = uint 8 ∷ uint 8 ∷ []

unfoldable pub key_of_dict : Fields → Result UdpMapKey
key_of_dict fs = do
  family ← int_field "family" fs
  ip_proto ← int_field "ip_proto" fs
  src_port ← int_field "src_port" fs
  dst_port ← int_field "dst_port" fs
  ifindex ← int_field "ifindex" fs
  src_ip4 ← int_field "src_ip4" fs
  dst_ip4 ← int_field "dst_ip4" fs
  ok (record {
    family = family;
    ip_proto = ip_proto;
    src_port = src_port;
    dst_port = dst_port;
    ifindex = ifindex;
    src_ip4 = src_ip4;
    dst_ip4 = dst_ip4;
  })

unfoldable pub key_of_fields : List ℕ → Result UdpMapKey
key_of_fields (family ∷ ip_proto ∷ src_port ∷ dst_port ∷ ifindex ∷ src_ip4 ∷ dst_ip4 ∷ []) =
    ok (record {
      family = family;
      ip_proto = ip_proto;
      src_port = src_port;
      dst_port = dst_port;
      ifindex = ifindex;
      src_ip4 = src_ip4;
      dst_ip4 = dst_ip4;
    })
key_of_fields _ = err struct_error

unfoldable pub key_of_bytes : List ℕ → Result UdpMapKey
unfolding key_of_fields unpack
key_of_bytes key_bytes =
    if ltb (length key_bytes) 20
    then err runtime_error
    else key_of_fields (unpack udp_key_format (take 20 key_bytes))

unfoldable pub parse_bpftool_key : Json → Result UdpMapKey
unfolding key_of_dict key_of_bytes int_field raw_bytes
parse_bpftool_key (obj fs) = key_of_dict fs
parse_bpftool_key raw_key = do key_bytes ← raw_bytes raw_key; key_of_bytes key_bytes

unfoldable pub counters_of_fields : List ℕ → Result UdpMapCounters
counters_of_fields (packets ∷ bytes ∷ []) = ok (record { packets = packets; bytes = bytes })
counters_of_fields _ = err struct_error

-- `parse_bpftool_counters(value=value, values=None)`
unfoldable pub parse_counters_value : Json → Result UdpMapCounters
unfolding counters_of_fields int_field raw_bytes unpack
parse_counters_value (obj fs) = do
  packets ← int_field "packets" fs
  bytes ← int_field "bytes" fs
  ok (record { packets = packets; bytes = bytes })
parse_counters_value value = do
  value_bytes ← raw_bytes value
  if ltb (length value_bytes) 16
      then err runtime_error
      else counters_of_fields (unpack udp_counters_format (take 16 value_bytes))

-- The loop over the CPUs.
unfoldable pub sum_cpus : List Json → UdpMapCounters → Result UdpMapCounters
unfolding get_field parse_counters_value
sum_cpus [] acc = ok acc
sum_cpus (cpu_value ∷ values) acc = do
  value ← get_field "value" cpu_value
  parsed ← parse_counters_value value
  sum_cpus values (add_counters acc parsed)

unfoldable pub parse_bpftool_counters : Json → Json → Result UdpMapCounters
unfolding sum_cpus iterate
parse_bpftool_counters value null = parse_counters_value value
parse_bpftool_counters value values = do cpus ← iterate values; sum_cpus cpus no_counters

unfoldable pub parse_bpftool_entry : Json → Result UdpMapEntry
unfolding parse_bpftool_key parse_bpftool_counters
parse_bpftool_entry entry = do
  raw_key ← get_field "key" entry
  key ← parse_bpftool_key raw_key
  value ← get_field "value" entry
  values ← get_field "values" entry
  counters ← parse_bpftool_counters value values
  ok (record { key = key; counters = counters })

abbrev key_identity_beq : KeyIdentity → KeyIdentity → Bool
key_identity_beq (a0, a1, a2, a3, a4, a5, a6) (b0, b1, b2, b3, b4, b5, b6) =
    (a0 == b0) && (a1 == b1) && (a2 == b2) && (a3 == b3) && (a4 == b4) && (a5 == b5) && (a6 == b6)

pub key_identity_beq_iff : (a b : KeyIdentity) → (key_identity_beq a b ≡ true) ↔ (a ≡ b)
key_identity_beq_iff a b = ground arith

-- Equality of the identity tuples.
instance abbrev pub key_identity_eq : Eq KeyIdentity
key_identity_eq = record { eqb = key_identity_beq; eqb_iff = key_identity_beq_iff }
