-- ===== src/Cache.antt =====
-- backend/internal/cache: what is kept in Redis between the parts of the program.
pub mod MetricBuffer
