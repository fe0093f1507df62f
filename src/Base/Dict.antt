-- ===== src/Base/Dict.antt =====
-- A Python `dict`: an association list in insertion order, where assigning to a key that is there
-- replaces its value in place.
mod Laws
mod Defs
unfoldable pub use Defs.*
pub use Laws.*
