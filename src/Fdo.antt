-- ===== src/Fdo.antt =====
-- winvhci/fdo.c: the BTHX transport, answered on the FDO.
pub mod Deliver
pub mod Dispatch
pub mod Setup
