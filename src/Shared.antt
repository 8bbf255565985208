-- ===== src/Shared.antt =====
-- libs/shared: the enumerations, the entities and the constants that the services exchange.
pub mod Enums
pub mod Entities
pub use Enums.*
pub use Entities.*
