-- ===== src/Observations.antt =====
-- pika/webapp/app/services/observation_service.py: notes on flicker, and the minute of stored voltage
-- before each of them.
pub mod Note
pub mod Stats
pub mod Summary
pub mod Correlate
pub mod Validate
pub mod Notes
pub mod Export
mod Examples
