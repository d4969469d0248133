-- ===== src/ConnId.antt =====
-- conn_id_manager.go: the connection identifiers of the two sides.
pub mod Manager
