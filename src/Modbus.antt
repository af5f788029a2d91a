-- ===== src/Modbus.antt =====
-- src/connectors/protocols/modbus-tcp/: the Modbus TCP connector.
pub mod Address
pub mod Client
pub mod Tests
