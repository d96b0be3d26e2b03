-- ===== src/Machine.antt =====
-- The machine under a guest program, and the rules by which properties pass through a program.
mod Defs
mod Rules
mod Stops
unfoldable pub use Defs.*
unfoldable pub use Rules.*
unfoldable pub use Stops.*
