-- ===== src/Trace.antt =====
-- tracer/tracer.go: what the tracer hands to the transpiler, an item for each executed opcode and
-- the state at the last of them. A `*uint256.Int` that may be nil is an option; an address is its
-- bytes.
use erigon_risc_v_executable.Prelude.{ℕ, List, Option, Bool}
use erigon_risc_v_executable.Opcode.{Opcode}

pub record EvmExecutionState : Type 0 where
  pub call_value : Option ℕ
  pub call_data : List ℕ
  pub code_data : List ℕ
  pub gas : Option ℕ
  pub address : List ℕ
  pub caller : List ℕ
  pub origin : List ℕ
  pub timestamp : Option ℕ
  pub chain_id : Option ℕ
  pub coinbase : List ℕ
  pub block_number : Option ℕ

-- The top of the stack is the last item of `stack_snapshot`.
pub record EvmInstructionMetadata : Type 0 where
  pub opcode : Opcode
  pub arguments : List ℕ
  pub stack_snapshot : List ℕ
  pub result : Option ℕ
  pub is_stack_restore : Bool
