-- ===== src/Startup.antt =====
-- The start of the node: blockchains/factory.py, database/__init__.py, and the loop of monitor.py.
pub mod Factory
pub mod Tables
pub mod Monitor
