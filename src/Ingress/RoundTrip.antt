-- ===== src/Ingress/RoundTrip.antt =====
-- The three ways in which bpftool prints a key or a value of the ingress map read back the same.
use ebpf_udp_tcp_analyzer.Base.{
  ℕ, ◌≡◌, refl, ap, ◌∙◌, List, [], ◌∷◌, arith, sum_by, length, ltb, false,
}
use ebpf_udp_tcp_analyzer.Errors.{ok}
use ebpf_udp_tcp_analyzer.Bpftool.Json.{
  Json, num, arr, obj, end, field, items_of, list_of-items_of, get_field,
}
use ebpf_udp_tcp_analyzer.Bpftool.Struct.{take, pack, Fits, unpack-pack, pack-All}
use ebpf_udp_tcp_analyzer.Bpftool.Print.{Style, print_bytes, raw_bytes-print_bytes}
use ebpf_udp_tcp_analyzer.Ingress.Wire.{
  UdpMapKey, UdpMapCounters, no_counters, add_counters, udp_key_format, udp_counters_format,
  key_of_fields, key_of_bytes, counters_of_fields, parse_bpftool_key, parse_counters_value,
  sum_cpus, parse_bpftool_counters,
}

-- A key or a value as bpftool prints it with type information, and as it lies in memory.
abbrev pub key_dict : UdpMapKey → Json
key_dict k = obj (
    field "family" (num k.family) (
      field "ip_proto" (num k.ip_proto) (
        field "src_port" (num k.src_port) (
          field "dst_port" (num k.dst_port) (
            field "ifindex" (num k.ifindex)
              (field "src_ip4" (num k.src_ip4) (field "dst_ip4" (num k.dst_ip4) end)))))))

abbrev pub key_values : UdpMapKey → List ℕ
key_values k =
    k.family ∷ k.ip_proto ∷ k.src_port ∷ k.dst_port ∷ k.ifindex ∷ k.src_ip4 ∷ k.dst_ip4 ∷ []

abbrev pub key_bytes : UdpMapKey → List ℕ
key_bytes k = pack udp_key_format (key_values k)

abbrev pub counters_dict : UdpMapCounters → Json
counters_dict v = obj (field "packets" (num v.packets) (field "bytes" (num v.bytes) end))

abbrev pub counters_bytes : UdpMapCounters → List ℕ
counters_bytes v = pack udp_counters_format (v.packets ∷ v.bytes ∷ [])

-- The fields are within their widths in the C struct.
abbrev pub KeyFits : UdpMapKey → Type 0
KeyFits k = Fits udp_key_format (key_values k)

abbrev pub CountersFit : UdpMapCounters → Type 0
CountersFit v = Fits udp_counters_format (v.packets ∷ v.bytes ∷ [])

key_of_packed : (k : UdpMapKey) → KeyFits k → key_of_bytes (key_bytes k) ≡ ok k
unfolding key_of_bytes
key_of_packed k h =
    let long : ltb (length (key_bytes k)) 20 ≡ false = (unfold pack in refl) in
    let whole : take 20 (key_bytes k) ≡ key_bytes k = (unfold pack in refl) in
    rw (long, whole) (ap key_of_fields (unpack-pack udp_key_format (key_values k) h))

counters_of_packed :
    (v : UdpMapCounters) (style : Style)
    → CountersFit v
    → parse_counters_value (print_bytes style (counters_bytes v)) ≡ ok v
unfolding parse_counters_value
counters_of_packed v style h =
    let values = v.packets ∷ v.bytes ∷ [] in
    let long : ltb (length (counters_bytes v)) 16 ≡ false = (unfold pack in refl) in
    let whole : take 16 (counters_bytes v) ≡ counters_bytes v = (unfold pack in refl) in
    rw
      (
        raw_bytes-print_bytes style (counters_bytes v) (pack-All udp_counters_format values),
        long,
        whole,
      )
      (ap counters_of_fields (unpack-pack udp_counters_format values h))

-- A key within its widths is read back from its dictionary, and from the bytes of the C struct
-- printed in either way.
pub parse_bpftool_key-print :
    (k : UdpMapKey)
    → KeyFits k
    → (parse_bpftool_key (key_dict k) ≡ ok k)
      × ((style : Style) → parse_bpftool_key (print_bytes style (key_bytes k)) ≡ ok k)
unfolding parse_bpftool_key
parse_bpftool_key-print k h = (
  refl,
  λ style.
      rw (raw_bytes-print_bytes style (key_bytes k) (pack-All udp_key_format (key_values k)))
        (key_of_packed k h),
)

-- One CPU's element of `values`.
abbrev pub cpu_dict : ℕ → Json → Json
cpu_dict cpu value = obj (field "cpu" (num cpu) (field "value" value end))

-- An element that reads as the given counters, whichever way its value is printed.
abbrev pub Reads : Json → UdpMapCounters → Type 0
Reads element v =
    (value : Json) × (get_field "value" element ≡ ok value) × (parse_counters_value value ≡ ok v)

abbrev pub AllRead : List Json → List UdpMapCounters → Type 0
AllRead [] [] = Unit
AllRead [] (v ∷ vs) = ⊥
AllRead (e ∷ es) [] = ⊥
AllRead (e ∷ es) (v ∷ vs) = Reads e v × AllRead es vs

abbrev pub totals : List UdpMapCounters → UdpMapCounters
totals vs = record {
  packets = sum_by (λ (v : UdpMapCounters). v.packets) vs;
  bytes = sum_by (λ (v : UdpMapCounters). v.bytes) vs;
}

sum_cpus-totals :
    (es : List Json) (vs : List UdpMapCounters) (acc : UdpMapCounters)
    → AllRead es vs
    → sum_cpus es acc ≡ ok (add_counters acc (totals vs))
unfolding sum_cpus
sum_cpus-totals [] [] acc h = ap ok (ground arith)
sum_cpus-totals [] (v ∷ vs) acc h = elim h [ ]
sum_cpus-totals (e ∷ es) [] acc h = elim h [ ]
sum_cpus-totals (e ∷ es) (v ∷ vs) acc h =
    let (value, there, parsed) = h.0 in
    rw (there, parsed) (sum_cpus-totals es vs (add_counters acc v) h.1 ∙ ap ok (ground arith))

-- The counters of an entry of a per-CPU map are the sums over the CPUs, and `value` is not read.
pub parse_bpftool_counters-totals :
    (value : Json) (es : List Json) (vs : List UdpMapCounters)
    → AllRead es vs
    → parse_bpftool_counters value (arr (items_of es)) ≡ ok (totals vs)
unfolding parse_bpftool_counters
parse_bpftool_counters-totals value es vs h =
    rw list_of-items_of (sum_cpus-totals es vs no_counters h ∙ ap ok (ground arith))
