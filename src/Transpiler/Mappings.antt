-- ===== src/Transpiler/Mappings.antt =====
-- The debug mappings (transpiler/transpiler.go, `storeDebugInfo`) hold the program.
pub mod Adding
pub mod Case
pub mod Recorded
pub mod Switched
pub mod Run
