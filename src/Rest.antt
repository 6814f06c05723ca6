-- ===== src/Rest.antt =====
-- The REST interface of a primary node: restapi.py serves it, and restclient.py is its client.
pub mod Http
pub mod Server
pub mod Client
pub mod Exchange
