-- ===== src/Web.antt =====
-- pika/webapp/app/main.py: what the web application itself decides. The routes and the processes that
-- it starts are left out.
pub mod Storage
pub mod Health
pub mod Restart
mod Examples
