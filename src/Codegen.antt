-- ===== src/Codegen.antt =====
-- carbonc/codegen_x64.cc: the generator of x86-64 code, by its parts.
pub mod Registers
pub mod Frame
pub mod Prologue
pub mod Temps
