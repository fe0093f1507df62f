-- ===== src/Loaders.antt =====
-- The loader processes that attach BPF programs: `ReceiveBpfAttachment` of src/udp_analyzer/ebpf.py,
-- and the attachments of tcp_channel.py and udp_channel.py, which repeat each other.
pub mod Status
pub mod Attachment
pub mod Detached
pub mod Lifecycle
pub mod Received
pub mod Reach
pub mod Udp
pub mod Tc
