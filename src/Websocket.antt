-- ===== src/Websocket.antt =====
-- backend/internal/websocket: what the connected clients are told.
pub mod Hub
