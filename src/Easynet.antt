-- ===== src/Easynet.antt =====
-- The first version of the network library (easynet): its buffer.
pub mod EasyBuf
