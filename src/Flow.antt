-- ===== src/Flow.antt =====
-- What src/udp_analyzer/tcp_channel.py and udp_channel.py share: flows per socket, attributed to
-- systemd units. The two files repeat each other but for the protocol, the endpoint and the layer.
pub mod Wire
pub mod Merge
pub mod Samples
pub mod Collector
pub mod Rows
pub mod Growth
pub mod RoundTrip
pub mod Tcp
pub mod Udp
pub mod DryRun
pub mod PerCpu
pub mod Run
pub mod Open
pub mod Opened
pub mod Dict
