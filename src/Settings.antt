-- ===== src/Settings.antt =====
-- pika/webapp/app/main.py and services/config_service.py: the settings in pika.yaml, how they are
-- read, and how the web application rewrites them.
pub mod Pattern
pub mod Decimal
pub mod Persist
pub mod Config
pub mod Update
