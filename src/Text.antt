-- ===== src/Text.antt =====
-- `std::string`: bytes and their tests (Core), and searching (Find).
mod Core
pub mod Decimal
pub mod Find
unfoldable pub use Core.*
