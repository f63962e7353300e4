-- ===== src/Tracer.antt =====
-- tracer/tracer.go, `StateTracer`: the hooks that the virtual machine calls, as functions on the
-- tracer's state. An opcode byte is the opcode that it stands for, an address its bytes.
pub mod Ready
pub mod Simple
use erigon_risc_v_executable.Prelude.{
  ℕ, zero, suc, ◌+◌, ◌%◌, ◌^◌, List, [], ◌∷◌, replicate, ◌++◌, Option, none, some, Bool, true,
  false, ◌||◌, ltb, leb, ◌&&◌, get_elem?, if◌then◌else◌,
}
use erigon_risc_v_executable.Opcode.{Opcode, push, stop}
use erigon_risc_v_executable.Trace.{EvmExecutionState, EvmInstructionMetadata}

-- `execution_state` is nil until an opcode was captured; `chain_id` and `block_number` are nil until
-- a transaction has started.
pub record StateTracer : Type 0 where
  pub evm_instructions : List EvmInstructionMetadata
  pub execution_state : Option EvmExecutionState
  pub block_time : ℕ
  pub chain_id : Option ℕ
  pub coinbase : List ℕ
  pub origin : List ℕ
  pub block_number : Option ℕ

-- A zero `libcommon.Address` is 20 zeros.
unfoldable pub new_state_tracer : StateTracer
new_state_tracer = record {
  evm_instructions = [];
  execution_state = none;
  block_time = 0;
  chain_id = none;
  coinbase = replicate 20 0;
  origin = replicate 20 0;
  block_number = none;
}

-- the fields of `tracing.VMContext` that the tracer reads
pub record VmContext : Type 0 where
  pub time : ℕ
  pub chain_id : ℕ
  pub coinbase : List ℕ
  pub block_number : ℕ

-- what `tracing.OpContext` answers
pub record OpContext : Type 0 where
  pub stack_data : List ℕ
  pub caller : List ℕ
  pub address : List ℕ
  pub call_value : Option ℕ
  pub call_input : List ℕ
  pub code : List ℕ

unfoldable pub capture_tx_start : VmContext → List ℕ → StateTracer → StateTracer
capture_tx_start vm from t = record t {
  block_time = vm.time;
  chain_id = some vm.chain_id;
  coinbase = vm.coinbase;
  origin = from;
  block_number = some vm.block_number;
}

-- the item that marks the end of a nested call
unfoldable pub stack_restore : Bool → EvmInstructionMetadata
stack_restore failed = record {
  opcode = stop;
  arguments = [];
  stack_snapshot = [];
  result = if failed then some 0 else some 1;
  is_stack_restore = true;
}

-- `CaptureExit`; `failed` is whether there is an error
unfoldable pub capture_exit : ℕ → Bool → Bool → StateTracer → StateTracer
unfolding stack_restore
capture_exit depth failed reverted t =
    if ltb 0 depth
    then record t {
      evm_instructions = t.evm_instructions ++ stack_restore (failed || reverted) ∷ [];
    }
    else t

-- the bytes that follow PUSH1 to PUSH32
unfoldable pub immediate_size : Opcode → ℕ
immediate_size (push n) = if leb 1 n && leb n 32 then n else 0
immediate_size _ = 0

-- The rounds of the loop over the immediate bytes from `i` on, `left` of them; the index is in uint64.
unfoldable pub immediate_bytes : ℕ → ℕ → ℕ → List ℕ → List ℕ
immediate_bytes zero i pc code = []
immediate_bytes (suc left) i pc code =
    let byte : ℕ = elim (get_elem? code ((pc + 1 + i) % 2 ^ 64)) [ none ↦ 0 | some b ↦ b ] in
    byte ∷ immediate_bytes left (i + 1) pc code

unfoldable pub captured_state : ℕ → OpContext → StateTracer → EvmExecutionState
captured_state gas scope t = record {
  call_value = scope.call_value;
  call_data = scope.call_input;
  code_data = scope.code;
  gas = some gas;
  address = scope.address;
  caller = scope.caller;
  origin = t.origin;
  timestamp = some t.block_time;
  chain_id = t.chain_id;
  coinbase = t.coinbase;
  block_number = t.block_number;
}

unfoldable pub captured_item : ℕ → Opcode → OpContext → EvmInstructionMetadata
unfolding immediate_size immediate_bytes
captured_item pc op scope = record {
  opcode = op;
  arguments = immediate_bytes (immediate_size op) 0 pc scope.code;
  stack_snapshot = scope.stack_data;
  result = none;
  is_stack_restore = false;
}

-- `CaptureState`
unfoldable pub capture_state : ℕ → Opcode → ℕ → OpContext → StateTracer → StateTracer
unfolding captured_state captured_item
capture_state pc op gas scope t = record t {
  execution_state = some (captured_state gas scope t);
  evm_instructions = t.evm_instructions ++ captured_item pc op scope ∷ [];
}

-- The calls of the hooks. `silent` is one of `CaptureTxEnd`, `CaptureEnter` and `CaptureFault`, whose
-- bodies are empty.
pub data Event : Type 0 where
  tx_start : VmContext → List ℕ → Event
  exit : ℕ → Bool → Bool → Event
  opcode : ℕ → Opcode → ℕ → OpContext → Event
  silent : Event

unfoldable pub capture : Event → StateTracer → StateTracer
unfolding capture_tx_start capture_exit capture_state
capture (tx_start vm from) t = capture_tx_start vm from t
capture (exit depth failed reverted) t = capture_exit depth failed reverted t
capture (opcode pc op gas scope) t = capture_state pc op gas scope t
capture silent t = t

unfoldable pub trace : List Event → StateTracer → StateTracer
unfolding capture
trace [] t = t
trace (e ∷ es) t = trace es (capture e t)
