-- ===== src/Transpiler.antt =====
-- transpiler/transpiler.go, `Transpiler`: its state, its constructors and the methods that read or
-- reset the state. What a trace does to it is in the modules below.
pub mod Effects
pub mod Switch
pub mod Arity
pub mod Extends
pub mod Does
pub mod Cases
pub mod Sound
pub mod Moves
pub mod Step
pub mod Run
pub mod Atomic
pub mod Errors
pub mod Mappings
use erigon_risc_v_executable.Prelude.{
  ℕ, List, [], ◌∷◌, ◌++◌, Option, none, some, Bool, true, false, Text,
}
use erigon_risc_v_executable.Assembly.{
  Instruction, DataVariable, AssemblyFile, instr, mv, sp, s2, s3, reg,
}
use erigon_risc_v_executable.Sections.{
  DataSection, StorageSection, new_data_section, new_storage_section, iter,
}
use erigon_risc_v_executable.Emit.{ebreak_instr}

pub record TranspilerConfig : Type 0 where
  pub disable_call_context_separation : Bool
  pub disable_host_optimized_opcodes : Bool
  pub disable_m_copy_operations : Bool
  pub disable_debug_mappings : Bool

pub record EvmToRiscVMapping : Type 0 where
  pub evm_opcode : Text
  pub risc_v_instructions : List Instruction
  pub data_variables : List DataVariable
  pub call_depth : ℕ

pub record Transpiler : Type 0 where
  pub instructions : List Instruction
  pub data_section : DataSection
  pub storage_section : StorageSection
  pub enable_snapshots : Bool
  pub debug_mappings : List EvmToRiscVMapping
  pub current_depth : ℕ
  pub config : TranspilerConfig
  -- no method calls it
  pub output_writer : Option (List Instruction → Option Text)

unfoldable pub new_transpiler_with_config : TranspilerConfig → Transpiler
new_transpiler_with_config config = record {
  instructions = [];
  data_section = new_data_section;
  storage_section = new_storage_section;
  enable_snapshots = false;
  debug_mappings = [];
  current_depth = 0;
  config = config;
  output_writer = none;
}

unfoldable pub new_streaming_transpiler_with_config :
    TranspilerConfig → (List Instruction → Option Text) → Transpiler
unfolding new_transpiler_with_config
new_streaming_transpiler_with_config config writer = record (new_transpiler_with_config config) {
  output_writer = some writer;
}

-- The configuration of the tests, all flags false, and the one of the commands.
abbrev pub test_config : TranspilerConfig
test_config = record {
  disable_call_context_separation = false;
  disable_host_optimized_opcodes = false;
  disable_m_copy_operations = false;
  disable_debug_mappings = false;
}

abbrev pub production_config : TranspilerConfig
production_config = record {
  disable_call_context_separation = true;
  disable_host_optimized_opcodes = true;
  disable_m_copy_operations = true;
  disable_debug_mappings = false;
}

unfoldable pub new_test_transpiler : Transpiler
unfolding new_transpiler_with_config
new_test_transpiler = new_transpiler_with_config test_config

unfoldable pub new_transpiler : Transpiler
unfolding new_transpiler_with_config
new_transpiler = new_transpiler_with_config production_config

-- `EnableSnapshots`
unfoldable pub set_enable_snapshots : Transpiler → Transpiler
set_enable_snapshots tr = record tr { enable_snapshots = true }

unfoldable pub reset_state_for_next_transaction : Transpiler → Transpiler
reset_state_for_next_transaction tr = record tr {
  current_depth = 0;
  storage_section = new_storage_section;
  debug_mappings = [];
}

unfoldable pub add_transaction_boundary : Transpiler → Transpiler
unfolding reset_state_for_next_transaction
add_transaction_boundary tr = reset_state_for_next_transaction (record tr {
  instructions =
      tr.instructions
      ++ instr mv (reg sp ∷ reg s2 ∷ []) ∷ instr mv (reg s3 ∷ reg s2 ∷ []) ∷ ebreak_instr ∷ [];
})

unfoldable pub clear_instructions_and_debug_mappings : Transpiler → Transpiler
clear_instructions_and_debug_mappings tr = record tr { instructions = []; debug_mappings = [] }

-- `ToAssembly`; `getDataSectionSnapshot` is its data section
unfoldable pub get_data_section_snapshot : Transpiler → List DataVariable
unfolding iter
get_data_section_snapshot tr = iter tr.data_section

unfoldable pub to_assembly : Transpiler → AssemblyFile
unfolding iter
to_assembly tr = record { instructions = tr.instructions; data_section = iter tr.data_section }
