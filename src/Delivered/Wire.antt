-- ===== src/Delivered/Wire.antt =====
-- Entries of the map `udp_delivered_counters`: `parse_bpftool_delivered_entry` and what it calls
-- (src/udp_analyzer/ebpf.py).
use ebpf_udp_tcp_analyzer.Base.{ℕ, ◌+◌, List, [], ◌∷◌, length, ltb, if◌then◌else◌, nat_eq, ◌==◌}
use ebpf_udp_tcp_analyzer.Errors.{Result, ok, err, runtime_error, struct_error, ◌>>=◌}
use ebpf_udp_tcp_analyzer.Bpftool.Json.{
  Json, null, obj, Fields, int_field, int_field_or_zero, get_field, iterate, raw_bytes,
}
use ebpf_udp_tcp_analyzer.Bpftool.Struct.{Field, uint, pad, unpack, take}
use ebpf_udp_tcp_analyzer.Ingress.Wire.{UdpMapCounters, KeyIdentity}

pub record DeliveredMapKey : Type 0 where
  pub socket_cookie : ℕ
  pub src_ip4 : ℕ
  pub dst_ip4 : ℕ
  pub src_port : ℕ
  pub dst_port : ℕ
  pub family : ℕ
  pub ip_proto : ℕ

abbrev pub identity : DeliveredMapKey → KeyIdentity
identity k = (k.socket_cookie, k.src_ip4, k.dst_ip4, k.src_port, k.dst_port, k.family, k.ip_proto)

pub record DeliveredMapValue : Type 0 where
  pub packets : ℕ
  pub bytes : ℕ
  pub socket_inode : ℕ
  pub ifindex : ℕ

abbrev pub counters : DeliveredMapValue → UdpMapCounters
counters v = record { packets = v.packets; bytes = v.bytes }

pub record DeliveredMapEntry : Type 0 where
  pub key : DeliveredMapKey
  pub value : DeliveredMapValue

-- `<QIIHHBB2x`
abbrev pub delivered_key_format : List Field
delivered_key_format = uint 8 ∷ uint 4 ∷ uint 4 ∷ uint 2 ∷ uint 2 ∷ uint 1 ∷ uint 1 ∷ pad 2 ∷ []

-- `<QQQI4x`
abbrev pub delivered_value_format : List Field
delivered_value_format = uint 8 ∷ uint 8 ∷ uint 8 ∷ uint 4 ∷ pad 4 ∷ []

unfoldable pub key_of_dict : Fields → Result DeliveredMapKey
key_of_dict fs = do
  socket_cookie ← int_field "socket_cookie" fs
  src_ip4 ← int_field "src_ip4" fs
  dst_ip4 ← int_field "dst_ip4" fs
  src_port ← int_field "src_port" fs
  dst_port ← int_field "dst_port" fs
  family ← int_field "family" fs
  ip_proto ← int_field "ip_proto" fs
  ok (record {
    socket_cookie = socket_cookie;
    src_ip4 = src_ip4;
    dst_ip4 = dst_ip4;
    src_port = src_port;
    dst_port = dst_port;
    family = family;
    ip_proto = ip_proto;
  })

unfoldable pub key_of_fields : List ℕ → Result DeliveredMapKey
key_of_fields (socket_cookie ∷ src_ip4 ∷ dst_ip4 ∷ src_port ∷ dst_port ∷ family ∷ ip_proto ∷ []) =
    ok (record {
      socket_cookie = socket_cookie;
      src_ip4 = src_ip4;
      dst_ip4 = dst_ip4;
      src_port = src_port;
      dst_port = dst_port;
      family = family;
      ip_proto = ip_proto;
    })
key_of_fields _ = err struct_error

unfoldable pub key_of_bytes : List ℕ → Result DeliveredMapKey
unfolding key_of_fields unpack
key_of_bytes key_bytes =
    if ltb (length key_bytes) 24
    then err runtime_error
    else key_of_fields (unpack delivered_key_format (take 24 key_bytes))

unfoldable pub parse_bpftool_delivered_key : Json → Result DeliveredMapKey
unfolding key_of_dict key_of_bytes int_field raw_bytes
parse_bpftool_delivered_key (obj fs) = key_of_dict fs
parse_bpftool_delivered_key raw_key = do key_bytes ← raw_bytes raw_key; key_of_bytes key_bytes

unfoldable pub value_of_fields : List ℕ → Result DeliveredMapValue
value_of_fields (packets ∷ bytes ∷ socket_inode ∷ ifindex ∷ []) =
    ok (record { packets = packets; bytes = bytes; socket_inode = socket_inode; ifindex = ifindex })
value_of_fields _ = err struct_error

-- `parse_bpftool_delivered_value(value=value, values=None)`
unfoldable pub parse_delivered_value : Json → Result DeliveredMapValue
unfolding value_of_fields int_field int_field_or_zero raw_bytes unpack
parse_delivered_value (obj fs) = do
  packets ← int_field "packets" fs
  bytes ← int_field "bytes" fs
  socket_inode ← int_field_or_zero "socket_inode" fs
  ifindex ← int_field_or_zero "ifindex" fs
  ok (record { packets = packets; bytes = bytes; socket_inode = socket_inode; ifindex = ifindex })
parse_delivered_value value = do
  value_bytes ← raw_bytes value
  if ltb (length value_bytes) 32
      then err runtime_error
      else value_of_fields (unpack delivered_value_format (take 32 value_bytes))

-- Python's `a or b` on numbers.
abbrev pub or_else : ℕ → ℕ → ℕ
or_else a b = if a == 0 then b else a

-- One CPU's value joins those before it: counters add up, the first nonzero metadata stay.
abbrev pub merge_cpu : DeliveredMapValue → DeliveredMapValue → DeliveredMapValue
merge_cpu acc parsed = record {
  packets = acc.packets + parsed.packets;
  bytes = acc.bytes + parsed.bytes;
  socket_inode = or_else acc.socket_inode parsed.socket_inode;
  ifindex = or_else acc.ifindex parsed.ifindex;
}

unfoldable pub merge_cpus : List Json → DeliveredMapValue → Result DeliveredMapValue
unfolding get_field parse_delivered_value
merge_cpus [] acc = ok acc
merge_cpus (cpu_value ∷ values) acc = do
  value ← get_field "value" cpu_value
  parsed ← parse_delivered_value value
  merge_cpus values (merge_cpu acc parsed)

unfoldable pub parse_bpftool_delivered_value : Json → Json → Result DeliveredMapValue
unfolding merge_cpus iterate
parse_bpftool_delivered_value value null = parse_delivered_value value
parse_bpftool_delivered_value value values = do
  cpus ← iterate values
  merge_cpus cpus (record { packets = 0; bytes = 0; socket_inode = 0; ifindex = 0 })

unfoldable pub parse_bpftool_delivered_entry : Json → Result DeliveredMapEntry
unfolding parse_bpftool_delivered_key parse_bpftool_delivered_value
parse_bpftool_delivered_entry entry = do
  raw_key ← get_field "key" entry
  key ← parse_bpftool_delivered_key raw_key
  raw_value ← get_field "value" entry
  values ← get_field "values" entry
  value ← parse_bpftool_delivered_value raw_value values
  ok (record { key = key; value = value })
