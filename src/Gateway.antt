-- ===== src/Gateway.antt =====
-- ewsmcp/gateway: the connection to Exchange.
pub mod Connection
