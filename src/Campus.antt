-- ===== src/Campus.antt =====
-- backend/internal/campus: the topology of the devices, and maintenance windows.
pub mod Topology
pub mod Maintenance
