-- ===== src/Delivered.antt =====
-- The delivered side of src/udp_analyzer/ebpf.py.
pub mod Wire
