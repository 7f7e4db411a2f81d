-- ===== src/Auth.antt =====
-- internal/auth: the check of a bearer token, and the proxy of a login.
pub mod Verifier
pub mod Proxy
pub mod Broker
