-- ===== src/Auth.antt =====
-- backend/internal/auth: who may log in.
pub mod LoginLimiter
pub mod SessionStore
