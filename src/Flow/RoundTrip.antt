-- ===== src/Flow/RoundTrip.antt =====
-- Keys of the channel maps: what a parsed key satisfies, and that the printed forms read back.
use ebpf_udp_tcp_analyzer.Base.{
  ℕ, ◌≡◌, ◌≢◌, refl, ap, List, [], ◌∷◌, arith, length, ltb, false, nat_eq,
}
use ebpf_udp_tcp_analyzer.Errors.{Result, ok, err, ◌>>=◌, >>=-eq-ok}
use ebpf_udp_tcp_analyzer.Bpftool.Json.{Json, num, obj, end, field, raw_bytes}
use ebpf_udp_tcp_analyzer.Bpftool.Struct.{take, pack, Fits, unpack-pack, pack-All}
use ebpf_udp_tcp_analyzer.Bpftool.Print.{Style, print_bytes, raw_bytes-print_bytes}
use ebpf_udp_tcp_analyzer.Flow.Wire.{
  FlowKey, flow_key_format, key_of_fields, key_of_dict, key_of_bytes, validate_flow_key, af_inet,
  parse_flow_key,
}

-- A key of a flow of the protocol: it has a socket, and is of IPv4.
pub record IsFlowKey (proto : ℕ) (k : FlowKey) : Type 0 where
  pub socket : k.socket_cookie ≢ 0
  pub family : k.family ≡ af_inet
  pub ip_proto : k.ip_proto ≡ proto

abbrev pub flow_key_dict : FlowKey → Json
flow_key_dict k = obj (
    field "socket_cookie" (num k.socket_cookie) (
      field "src_ip4" (num k.src_ip4) (
        field "dst_ip4" (num k.dst_ip4) (
          field "src_port" (num k.src_port) (
            field "dst_port" (num k.dst_port) (
              field "family" (num k.family)
                (field "ip_proto" (num k.ip_proto) (field "cgroup_id" (num k.cgroup_id) end))))))))

abbrev pub flow_key_values : FlowKey → List ℕ
flow_key_values k =
    k.socket_cookie ∷ k.src_ip4 ∷ k.dst_ip4 ∷ k.src_port ∷ k.dst_port ∷ k.family ∷ k.ip_proto
    ∷ k.cgroup_id ∷ []

abbrev pub flow_key_bytes : FlowKey → List ℕ
flow_key_bytes k = pack flow_key_format (flow_key_values k)

abbrev pub FlowKeyFits : FlowKey → Type 0
FlowKeyFits k = Fits flow_key_format (flow_key_values k)

validate_flow_key-IsFlowKey :
    (proto : ℕ) (k key : FlowKey) → validate_flow_key proto k ≡ ok key → IsFlowKey proto key
unfolding validate_flow_key
validate_flow_key-IsFlowKey proto k key h =
    let same : k ≡ key = ground (arith, h) in
    rw (← same) (record {
      socket = λ none. ground (arith, h);
      family = ground (arith, h);
      ip_proto = ground (arith, h);
    })

accepted : (proto : ℕ) (k : FlowKey) → IsFlowKey proto k → validate_flow_key proto k ≡ ok k
unfolding validate_flow_key
accepted proto k h = ground (arith, h.socket, h.family, h.ip_proto)

key_of_packed : (k : FlowKey) → FlowKeyFits k → key_of_bytes (flow_key_bytes k) ≡ ok k
unfolding key_of_bytes
key_of_packed k h =
    let long : ltb (length (flow_key_bytes k)) 32 ≡ false = (unfold pack in refl) in
    let whole : take 32 (flow_key_bytes k) ≡ flow_key_bytes k = (unfold pack in refl) in
    rw (long, whole) (ap key_of_fields (unpack-pack flow_key_format (flow_key_values k) h))

parsed_bytes :
    (proto : ℕ) (read : Result (List ℕ)) (k : FlowKey)
    → (read >>= λ bytes. key_of_bytes bytes >>= λ key. validate_flow_key proto key) ≡ ok k
    → IsFlowKey proto k
parsed_bytes proto (err e) k h = absurd (ground (arith, h))
parsed_bytes proto (ok bytes) k h =
    let (key, _, valid) = >>=-eq-ok (key_of_bytes bytes) (λ key. validate_flow_key proto key) h in
    validate_flow_key-IsFlowKey proto key k valid

parsed :
    (proto : ℕ) (raw : Json) (k : FlowKey) → parse_flow_key proto raw ≡ ok k → IsFlowKey proto k
unfolding parse_flow_key
parsed proto (obj fs) k h =
    let (key, _, valid) = >>=-eq-ok (key_of_dict fs) (λ key. validate_flow_key proto key) h in
    validate_flow_key-IsFlowKey proto key k valid
parsed proto raw k h = parsed_bytes proto (raw_bytes raw) k h

of_dict :
    (proto : ℕ) (k : FlowKey) → IsFlowKey proto k → parse_flow_key proto (flow_key_dict k) ≡ ok k
unfolding parse_flow_key
of_dict proto k h = accepted proto k h

of_bytes :
    (proto : ℕ) (k : FlowKey) (style : Style)
    → IsFlowKey proto k
    → FlowKeyFits k
    → parse_flow_key proto (print_bytes style (flow_key_bytes k)) ≡ ok k
unfolding parse_flow_key
of_bytes proto k style valid fits =
    rw
      (
        raw_bytes-print_bytes style (flow_key_bytes k)
            (pack-All flow_key_format (flow_key_values k)),
        key_of_packed k fits,
      )
      (accepted proto k valid)

-- `parse_flow_key` returns only keys of flows of its protocol; and it reads such a key back,
-- whatever its fields from its dictionary, and within the widths of the C struct from the bytes of
-- the struct, printed in either way.
pub parse_flow_key-IsFlowKey :
    (proto : ℕ)
    → ((raw : Json) (k : FlowKey) → parse_flow_key proto raw ≡ ok k → IsFlowKey proto k)
      × ((k : FlowKey) → IsFlowKey proto k → parse_flow_key proto (flow_key_dict k) ≡ ok k)
      × ((k : FlowKey) (style : Style)
          → IsFlowKey proto k
          → FlowKeyFits k
          → parse_flow_key proto (print_bytes style (flow_key_bytes k)) ≡ ok k)
parse_flow_key-IsFlowKey proto = (parsed proto, of_dict proto, of_bytes proto)
