-- ===== src/Parking.antt =====
-- parking-service (app/parking-service): entry and exit of vehicles, fees and monthly cards.
pub mod Model
pub mod Fee
pub mod Store
pub mod Telemetry
pub mod Consumer
pub mod Manual
pub mod Settle
pub mod Announce
pub mod Card
mod Tests
