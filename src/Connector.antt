-- ===== src/Connector.antt =====
-- src/connectors/core/: what all protocol connectors share.
pub mod Types
pub mod Timers
pub mod Quality
pub mod Mappings
pub mod Base
pub mod Tests
