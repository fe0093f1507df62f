-- ===== src/Bpftool.antt =====
-- The JSON that `bpftool -j map dump` prints, and the values read out of it (src/udp_analyzer/
-- ebpf.py).
pub mod Json
pub mod Struct
pub mod Address
pub mod Print
pub mod Select
pub mod Newest
