-- ===== src/Collector/Parts.antt =====
-- The parts of a checkpoint that raises nothing.
use ebpf_udp_tcp_analyzer.Base.{ℕ, ◌≡◌, refl, Bool, true, false, some, List, ◌++◌, arith}
use ebpf_udp_tcp_analyzer.Base.Dict.{Dict}
use ebpf_udp_tcp_analyzer.Errors.{ok, >>=-eq-ok}
use ebpf_udp_tcp_analyzer.Models
use ebpf_udp_tcp_analyzer.Models.{UdpSample}
use ebpf_udp_tcp_analyzer.Ingress.Wire.{KeyIdentity, UdpMapCounters}
use ebpf_udp_tcp_analyzer.Collector.{
  World, Collector, Enriching, read_ingress, read_delivered, extend_delivered, read_checkpoint,
  elapsed_ms,
}

abbrev pub elapsed_of : World → Collector → ℕ
elapsed_of w c = elapsed_ms c.last_checkpoint_ns w.now_ns c.bucket_ms

abbrev pub start_of : Collector → Enriching
start_of c = record { enricher = c.process_enricher; calls = 0 }

abbrev pub after_ingress :
    World → Collector → Dict KeyIdentity UdpMapCounters → Enriching → Collector
after_ingress w c p s = record c {
  previous = p;
  process_enricher = s.enricher;
  last_checkpoint_ns = some w.now_ns;
}

-- With no delivered map, or with one: `c` is the collector after the ingress rows.
pub data Delivery (has_reader : Bool) (w : World) (c : Collector) (bucket_ns elapsed : ℕ)
    (s : Enriching) (samples rows : List UdpSample) (c' : Collector) : Type 0 where
  absent :
      has_reader ≡ false
      → rows ≡ samples
      → c' ≡ c
      → Delivery has_reader w c bucket_ns elapsed s samples rows c'
  present :
      (d : Dict KeyIdentity UdpMapCounters) (s' : Enriching) (delivered : List UdpSample)
      → has_reader ≡ true
      → read_delivered w c bucket_ns elapsed s ≡ ok (d, s', delivered)
      → rows ≡ samples ++ delivered
      → c' ≡ record c { delivered_previous = d; process_enricher = s'.enricher }
      → Delivery has_reader w c bucket_ns elapsed s samples rows c'

extend_delivered_parts :
    (has_reader : Bool) (w : World) (c : Collector) (bucket_ns elapsed : ℕ) (s : Enriching)
    (samples rows : List UdpSample) (c' : Collector)
    → extend_delivered has_reader w bucket_ns elapsed s samples c ≡ ok (rows, c')
    → Delivery has_reader w c bucket_ns elapsed s samples rows c'
unfolding extend_delivered
extend_delivered_parts false w c b el s samples rows c' h = absent refl (cc) (cc)
extend_delivered_parts true w c b el s samples rows c' h =
    let (y, more, h') = >>=-eq-ok (read_delivered w c b el s) _ h in
    present y.0 y.1 y.2 refl more (cc) (cc)

pub checkpoint_parts :
    (w : World) (c c' : Collector) (rows : List UdpSample)
    → read_checkpoint w c ≡ ok (rows, c')
    → (bucket_ns : ℕ) × (p : Dict KeyIdentity UdpMapCounters) × (s : Enriching) × (samples : List
        UdpSample)
      × (Models.bucket_start_ns w.now_ns c.bucket_ms ≡ ok bucket_ns)
      × (read_ingress w c bucket_ns (elapsed_of w c) (start_of c) ≡ ok (p, s, samples))
      × Delivery c.has_delivered_reader w
          (after_ingress w c p s)
          bucket_ns
          (elapsed_of w c)
          s
          samples
          rows
          c'
unfolding read_checkpoint
checkpoint_parts w c c' rows h =
    let (b, started, h1) = >>=-eq-ok (Models.bucket_start_ns w.now_ns c.bucket_ms) _ h in
    let (x, read, h2) = >>=-eq-ok (read_ingress w c b (elapsed_of w c) (start_of c)) _ h1 in
    (
      b,
      x.0,
      x.1,
      x.2,
      started,
      read,
      extend_delivered_parts c.has_delivered_reader w (after_ingress w c x.0 x.1) b (elapsed_of w c)
          x.1 x.2 rows c' h2,
    )

-- What delivered rows leave as it is.
pub record Kept (c c' : Collector) : Type 0 where
  pub previous : c'.previous ≡ c.previous
  pub sample_filter : c'.sample_filter ≡ c.sample_filter
  pub delivery_attribution : c'.delivery_attribution ≡ c.delivery_attribution
  pub has_delivered_reader : c'.has_delivered_reader ≡ c.has_delivered_reader
  pub bucket_ms : c'.bucket_ms ≡ c.bucket_ms
  pub last_checkpoint_ns : c'.last_checkpoint_ns ≡ c.last_checkpoint_ns

module _ {has_reader : Bool} {w : World} {c : Collector} {b el : ℕ} {s : Enriching}
    {samples rows : List UdpSample} {c' : Collector} where
  pub Delivery-Kept : Delivery has_reader w c b el s samples rows c' → Kept c c'
  Delivery-Kept (absent _ _ e) = ground arith
  Delivery-Kept (present _ _ _ _ _ _ e) = ground arith

  pub rows_without_reader :
      Delivery has_reader w c b el s samples rows c' → has_reader ≡ false → rows ≡ samples
  rows_without_reader (absent _ e _) off = e
  rows_without_reader (present _ _ _ on _ _ _) off = absurd (ground arith)
