-- ===== src/Emit.antt =====
-- The generator's output: emit.h, emit_proto.cc, emit_header.cc and emit_source.cc.
pub mod Types
pub mod Machine
pub mod Words
pub mod Rendering
pub mod Common
pub mod Proto
pub mod Messages
pub mod Linked
pub mod Header
pub mod Source
pub mod Arguments
