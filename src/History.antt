-- ===== src/History.antt =====
-- pika/webapp/app/services/history_service.py: the voltage trend that is read from decimated.bin.
pub mod Format
pub mod Parse
pub mod Rows
pub mod Written
pub mod Seek
pub mod Window
pub mod Display
pub mod Trend
pub mod Sample
mod Examples
