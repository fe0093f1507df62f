-- ===== src/Cli.antt =====
-- src/udp_analyzer/cli.py: the loop of checkpoints, the run of a command, and what a command makes
-- of its arguments.
pub mod Loop
pub mod Turn
pub mod Ends
pub mod Command
pub mod Fed
pub mod Storage
pub mod Outcome
pub mod Choices
pub mod Ready
pub mod Catalog
pub mod Completed
