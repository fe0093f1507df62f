-- ===== src/Models.antt =====
-- src/udp_analyzer/models.py: the UDP sample, its filter, and the start of a bucket.
pub mod Rows
use ebpf_udp_tcp_analyzer.Base.{
  ℕ, ◌+◌, ◌*◌, ◌/◌, ◌≤◌, ◌<◌, ◌≡◌, Bool, true, ◌&&◌, String, Option, none, some, Eq, ◌==◌, nat_eq,
  string_eq, arith, if◌then◌else◌,
}
use ebpf_udp_tcp_analyzer.Errors.{Result, ok, err, zero_division}

abbrev pub udp_proto : ℕ
udp_proto = 17

pub record UdpSample : Type 0 where
  pub bucket_start_ns : ℕ
  pub bucket_ms : ℕ
  pub src_ip : String
  pub dst_ip : String
  pub src_port : ℕ
  pub dst_port : ℕ
  pub ifindex : ℕ
  pub ifname : String
  pub packets : ℕ
  pub bytes : ℕ
  pub ip_proto : ℕ
  pub netns_id : ℕ
  pub container_id : String
  pub process_name : String
  pub host_pid : ℕ
  pub container_pid : ℕ
  pub socket_id : ℕ
  pub layer : String

-- The defaults of the fields that have one; the others are given by every caller.
abbrev pub blank_sample : UdpSample
blank_sample = record {
  bucket_start_ns = 0;
  bucket_ms = 0;
  src_ip = "";
  dst_ip = "";
  src_port = 0;
  dst_port = 0;
  ifindex = 0;
  ifname = "";
  packets = 0;
  bytes = 0;
  ip_proto = udp_proto;
  netns_id = 0;
  container_id = "";
  process_name = "";
  host_pid = 0;
  container_pid = 0;
  socket_id = 0;
  layer = "ingress";
}

pub record SampleFilter : Type 0 where
  pub src_ip : Option String
  pub dst_ip : Option String
  pub src_port : Option ℕ
  pub dst_port : Option ℕ
  pub ifname : Option String
  pub process_name : Option String
  pub layer : Option String

-- `SampleFilter()`
abbrev pub no_filter : SampleFilter
no_filter = record {
  src_ip = none;
  dst_ip = none;
  src_port = none;
  dst_port = none;
  ifname = none;
  process_name = none;
  layer = none;
}

-- `self.x is None or sample.x == self.x`
abbrev pub accepts {ℓ} : {A : Type ℓ} ⦃e : Eq A⦄ → Option A → A → Bool
accepts none a = true
accepts (some wanted) a = a == wanted

unfoldable pub matches : SampleFilter → UdpSample → Bool
matches f sample =
    accepts f.src_ip sample.src_ip
    && accepts f.dst_ip sample.dst_ip
    && accepts f.src_port sample.src_port
    && accepts f.dst_port sample.dst_port
    && accepts f.ifname sample.ifname
    && accepts f.process_name sample.process_name
    && accepts f.layer sample.layer

-- A bucket of 0 ms divides by zero.
unfoldable pub bucket_start_ns : ℕ → ℕ → Result ℕ
bucket_start_ns now_ns bucket_ms =
    let bucket_ns = bucket_ms * 1_000_000 in
    if bucket_ns == 0 then err zero_division else ok ((now_ns / bucket_ns) * bucket_ns)

pub bucket_bounds :
    (now_ns bucket_ms : ℕ) {start : ℕ}
    → bucket_start_ns now_ns bucket_ms ≡ ok start
    → (start ≤ now_ns) × (now_ns < start + bucket_ms * 1_000_000)
unfolding bucket_start_ns
bucket_bounds now_ns bucket_ms h = ground arith
