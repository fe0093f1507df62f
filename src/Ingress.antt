-- ===== src/Ingress.antt =====
-- The ingress side of src/udp_analyzer/ebpf.py.
pub mod Wire
pub mod RoundTrip
