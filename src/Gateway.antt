-- ===== src/Gateway.antt =====
-- gateway-service (app/gateway-service): devices on TCP connections.
pub mod Model
pub mod Frame
pub mod Session
pub mod Serve
pub mod Framing
pub mod Identity
pub mod Connection
pub mod Login
pub mod Receipt
pub mod Stateless
mod Tests
