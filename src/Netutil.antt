-- ===== src/Netutil.antt =====
-- backend/internal/netutil: which hosts the program may connect to.
pub mod HostValidation
