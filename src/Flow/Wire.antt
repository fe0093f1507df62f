-- ===== src/Flow/Wire.antt =====
-- Entries of the maps `tcp_channel_flows` and `udp_channel_flows`, which have one layout: the
-- parsers of src/udp_analyzer/tcp_channel.py, over the protocol number that the key must have.
use ebpf_udp_tcp_analyzer.Base.{
  ℕ, ◌+◌, ◌≡◌, ◌↔◌, Bool, true, ◌&&◌, List, [], ◌∷◌, length, ltb, if◌then◌else◌, Eq, ◌==◌, nat_eq,
  arith,
}
use ebpf_udp_tcp_analyzer.Errors.{Result, ok, err, runtime_error, struct_error, ◌>>=◌}
use ebpf_udp_tcp_analyzer.Bpftool.Json.{Json, obj, Fields, int_field, int_field_or_zero, raw_bytes}
use ebpf_udp_tcp_analyzer.Bpftool.Struct.{Field, uint, pad, unpack, take}
use ebpf_udp_tcp_analyzer.Checkpoint.{Counting}

pub record FlowKey : Type 0 where
  pub socket_cookie : ℕ
  pub src_ip4 : ℕ
  pub dst_ip4 : ℕ
  pub src_port : ℕ
  pub dst_port : ℕ
  pub family : ℕ
  pub ip_proto : ℕ
  pub cgroup_id : ℕ

abbrev pub FlowIdentity : Type 0
FlowIdentity = ℕ × ℕ × ℕ × ℕ × ℕ × ℕ × ℕ × ℕ

abbrev pub identity : FlowKey → FlowIdentity
identity k = (
  k.socket_cookie, k.src_ip4, k.dst_ip4, k.src_port, k.dst_port, k.family, k.ip_proto, k.cgroup_id,
)

pub record FlowCounters : Type 0 where
  pub tx_bytes : ℕ
  pub rx_bytes : ℕ
  pub tx_calls : ℕ
  pub rx_calls : ℕ
  pub connections : ℕ

pub record FlowValue : Type 0 where
  pub tx_bytes : ℕ
  pub rx_bytes : ℕ
  pub tx_calls : ℕ
  pub rx_calls : ℕ
  pub connections : ℕ
  pub start_ns : ℕ
  pub last_ns : ℕ
  pub pid : ℕ
  pub ifindex : ℕ
  pub state : ℕ

abbrev pub counters : FlowValue → FlowCounters
counters v = record {
  tx_bytes = v.tx_bytes;
  rx_bytes = v.rx_bytes;
  tx_calls = v.tx_calls;
  rx_calls = v.rx_calls;
  connections = v.connections;
}

pub record FlowEntry : Type 0 where
  pub key : FlowKey
  pub value : FlowValue

abbrev pub flow_counting : Counting FlowCounters
flow_counting = record {
  zero = record { tx_bytes = 0; rx_bytes = 0; tx_calls = 0; rx_calls = 0; connections = 0 };
  add = λ a b. record {
    tx_bytes = a.tx_bytes + b.tx_bytes;
    rx_bytes = a.rx_bytes + b.rx_bytes;
    tx_calls = a.tx_calls + b.tx_calls;
    rx_calls = a.rx_calls + b.rx_calls;
    connections = a.connections + b.connections;
  };
}

-- `<QIIHHBB2xQ`
abbrev pub flow_key_format : List Field
flow_key_format = uint 8 ∷ uint 4 ∷ uint 4 ∷ uint 2 ∷ uint 2 ∷ uint 1 ∷ uint 1 ∷ pad 2 ∷ uint 8 ∷ []

-- `<QQQQQQQIIII`, the last field being padding that is read and dropped.
abbrev pub flow_value_format : List Field
flow_value_format =
    uint 8
    ∷ uint 8
    ∷ uint 8
    ∷ uint 8
    ∷ uint 8
    ∷ uint 8
    ∷ uint 8
    ∷ uint 4
    ∷ uint 4
    ∷ uint 4
    ∷ uint 4
    ∷ []

unfoldable pub key_of_dict : Fields → Result FlowKey
key_of_dict fs = do
  socket_cookie ← int_field "socket_cookie" fs
  src_ip4 ← int_field "src_ip4" fs
  dst_ip4 ← int_field "dst_ip4" fs
  src_port ← int_field "src_port" fs
  dst_port ← int_field "dst_port" fs
  family ← int_field "family" fs
  ip_proto ← int_field "ip_proto" fs
  cgroup_id ← int_field "cgroup_id" fs
  ok (record {
    socket_cookie = socket_cookie;
    src_ip4 = src_ip4;
    dst_ip4 = dst_ip4;
    src_port = src_port;
    dst_port = dst_port;
    family = family;
    ip_proto = ip_proto;
    cgroup_id = cgroup_id;
  })

unfoldable pub key_of_fields : List ℕ → Result FlowKey
key_of_fields
      (socket_cookie ∷ src_ip4 ∷ dst_ip4 ∷ src_port ∷ dst_port ∷ family ∷ ip_proto ∷ cgroup_id
        ∷ []) =
    ok (record {
      socket_cookie = socket_cookie;
      src_ip4 = src_ip4;
      dst_ip4 = dst_ip4;
      src_port = src_port;
      dst_port = dst_port;
      family = family;
      ip_proto = ip_proto;
      cgroup_id = cgroup_id;
    })
key_of_fields _ = err struct_error

unfoldable pub key_of_bytes : List ℕ → Result FlowKey
unfolding key_of_fields unpack
key_of_bytes key_bytes =
    if ltb (length key_bytes) 32
    then err runtime_error
    else key_of_fields (unpack flow_key_format (take 32 key_bytes))

abbrev pub af_inet : ℕ
af_inet = 2

-- `validate_tcp_flow_key`, with the protocol number as a parameter: 6 for TCP, 17 for UDP. A cookie
-- is never negative here.
unfoldable pub validate_flow_key : ℕ → FlowKey → Result FlowKey
validate_flow_key proto key =
    if key.socket_cookie == 0
    then err runtime_error
    else if (key.family == af_inet) && (key.ip_proto == proto)
    then ok key
    else err runtime_error

unfoldable pub parse_flow_key : ℕ → Json → Result FlowKey
unfolding key_of_dict key_of_bytes int_field raw_bytes validate_flow_key
parse_flow_key proto (obj fs) = do key ← key_of_dict fs; validate_flow_key proto key
parse_flow_key proto raw_key = do
  key_bytes ← raw_bytes raw_key
  key ← key_of_bytes key_bytes
  validate_flow_key proto key

unfoldable pub value_of_fields : List ℕ → Result FlowValue
value_of_fields
      (tx_bytes ∷ rx_bytes ∷ tx_calls ∷ rx_calls ∷ connections ∷ start_ns ∷ last_ns ∷ pid ∷ ifindex
        ∷ state ∷ pad' ∷ []) =
    ok (record {
      tx_bytes = tx_bytes;
      rx_bytes = rx_bytes;
      tx_calls = tx_calls;
      rx_calls = rx_calls;
      connections = connections;
      start_ns = start_ns;
      last_ns = last_ns;
      pid = pid;
      ifindex = ifindex;
      state = state;
    })
value_of_fields _ = err struct_error

-- `parse_tcp_flow_value(value=value, values=None)`
unfoldable pub parse_flow_value_one : Json → Result FlowValue
unfolding value_of_fields int_field int_field_or_zero raw_bytes unpack
parse_flow_value_one (obj fs) = do
  tx_bytes ← int_field "tx_bytes" fs
  rx_bytes ← int_field "rx_bytes" fs
  tx_calls ← int_field "tx_calls" fs
  rx_calls ← int_field "rx_calls" fs
  connections ← int_field_or_zero "connections" fs
  start_ns ← int_field_or_zero "start_ns" fs
  last_ns ← int_field_or_zero "last_ns" fs
  pid ← int_field_or_zero "pid" fs
  ifindex ← int_field_or_zero "ifindex" fs
  state ← int_field_or_zero "state" fs
  ok (record {
    tx_bytes = tx_bytes;
    rx_bytes = rx_bytes;
    tx_calls = tx_calls;
    rx_calls = rx_calls;
    connections = connections;
    start_ns = start_ns;
    last_ns = last_ns;
    pid = pid;
    ifindex = ifindex;
    state = state;
  })
parse_flow_value_one value = do
  value_bytes ← raw_bytes value
  if ltb (length value_bytes) 72
      then err runtime_error
      else value_of_fields (unpack flow_value_format (take 72 value_bytes))

unfoldable pub flow_identity_beq : FlowIdentity → FlowIdentity → Bool
flow_identity_beq a b =
    (a.0 == b.0)
    && (a.1 == b.1)
    && (a.2 == b.2)
    && (a.3 == b.3)
    && (a.4 == b.4)
    && (a.5 == b.5)
    && (a.6 == b.6)
    && (a.7 == b.7)

pub flow_identity_beq_iff : (a b : FlowIdentity) → (flow_identity_beq a b ≡ true) ↔ (a ≡ b)
unfolding flow_identity_beq
flow_identity_beq_iff a b = ground arith

-- Equality of the identity tuples.
instance abbrev pub flow_identity_eq : Eq FlowIdentity
flow_identity_eq = record { eqb = flow_identity_beq; eqb_iff = flow_identity_beq_iff }
