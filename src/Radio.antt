-- ===== src/Radio.antt =====
-- The radio: how a control packet creates it, which of the PDOs speaks for it, and what its state
-- lets a client write.
pub mod Opcode
pub mod Create
pub mod Admission
pub mod Keeps
pub mod Power
pub mod Ids
pub mod Stale
