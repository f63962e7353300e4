-- ===== src/Transpiler/Step.antt =====
-- transpiler/transpiler.go, `AddInstructionWithResult` and `ProcessExecution`.
use erigon_risc_v_executable.Prelude.{
  ℕ, suc, ◌-◌, List, [], ◌∷◌, ◌++◌, Option, none, some, Bool, true, false, ltb, ◌&&◌, if◌then◌else◌,
  int32, length, codes,
}
use erigon_risc_v_executable.Opcode.{Opcode, create, create2}
use erigon_risc_v_executable.Assembly.{Instruction}
use erigon_risc_v_executable.Deps.{Deps}
use erigon_risc_v_executable.Trace.{EvmExecutionState, EvmInstructionMetadata}
use erigon_risc_v_executable.Emit.{ebreak_instr, push_opcode, restore_stack_context}
use erigon_risc_v_executable.Transpiler.{Transpiler, TranspilerConfig}
use erigon_risc_v_executable.Transpiler.Effects.{
  M, Error, Outcome, ok, err, panic, pure, emit_config, modify, ◌>>=◌, ◌>>◌, emit, store_debug_info,
}
use erigon_risc_v_executable.Transpiler.Switch.{Flow, break_switch, returned, switch_arithmetic}

module _ (d : Deps) where
  -- a call ends
  abbrev pub decrement_depth : Transpiler → Transpiler
  decrement_depth tr = record tr {
    current_depth = if ltb 0 tr.current_depth then tr.current_depth - 1 else tr.current_depth;
  }

  -- the result of the call, if the trace has it
  abbrev pub result_code : Option ℕ → List Instruction
  result_code none = []
  result_code (some v) = push_opcode (int32 (d.uint64 v))

  abbrev pub restore_code : TranspilerConfig → List Instruction
  restore_code config = if config.disable_call_context_separation then [] else restore_stack_context

  -- the early part, for the end of a nested call
  unfoldable pub restore_instruction : EvmInstructionMetadata → ℕ → M (Unit {0})
  unfolding store_debug_info
  restore_instruction op start = do
    modify decrement_depth
    emit_config restore_code
    emit (result_code op.result)
    emit (ebreak_instr ∷ [])
    store_debug_info start (codes "STACK_RESTORE")

  -- what follows the switch
  unfoldable pub finish_instruction : EvmInstructionMetadata → ℕ → Flow → M (Unit {0})
  unfolding store_debug_info
  finish_instruction op start returned = pure tt
  finish_instruction op start break_switch = do
    emit (ebreak_instr ∷ [])
    store_debug_info start (d.op_string op.opcode)

  -- `AddInstructionWithResult`
  unfoldable pub add_instruction_with_result :
      EvmInstructionMetadata → Option EvmExecutionState → Option (List ℕ) → M (Unit {0})
  unfolding restore_instruction finish_instruction switch_arithmetic
  add_instruction_with_result op state result_stack tr =
      let start = length tr.instructions in
      if op.is_stack_restore
      then restore_instruction op start tr
      else (switch_arithmetic d op state result_stack start op.opcode
            >>= finish_instruction op start)
          tr

  -- `AddInstruction`
  unfoldable pub add_instruction : EvmInstructionMetadata → Option EvmExecutionState → M (Unit {0})
  unfolding add_instruction_with_result
  add_instruction op state = add_instruction_with_result op state none

-- the condition on the opcode in `ProcessExecution`
unfoldable pub is_create : Opcode → Bool
is_create create = true
is_create create2 = true
is_create _ = false

-- The stack that holds an item's result, given the items behind it: the next item's, or the one
-- after that for the two creations. The outer option is a panic on an index out of range, the
-- inner one a nil pointer, which the last item has.
unfoldable pub result_stack_of :
    EvmInstructionMetadata → List EvmInstructionMetadata → Option (Option (List ℕ))
unfolding is_create
result_stack_of op [] = some none
result_stack_of op (next ∷ []) =
    if is_create op.opcode then none else some (some next.stack_snapshot)
result_stack_of op (next ∷ after ∷ _) =
    if is_create op.opcode
    then some (some after.stack_snapshot)
    else some (some next.stack_snapshot)

-- `EvmStackSnapshot.Snapshots`
abbrev pub Snapshots : Type 0
Snapshots = List (List ℕ)

module _ (d : Deps) (state : Option EvmExecutionState) where
  -- The loop of `ProcessExecution` from index `i`, with the snapshots so far. What comes back beside
  -- the snapshots is the error that ended the loop.
  unfoldable pub process_from :
      ℕ → Snapshots → List EvmInstructionMetadata → Transpiler → Outcome (Snapshots × Option Error)
  unfolding add_instruction_with_result result_stack_of
  process_from i snapshots [] tr = ok (snapshots, none) tr
  process_from i snapshots (op ∷ rest) tr = elim (result_stack_of op rest) [
    | none ↦ panic
    | some result_stack ↦ elim (add_instruction_with_result d op state result_stack tr) [
      | ok _ tr' ↦
          process_from (suc i)
            (if ltb 0 i && tr'.enable_snapshots
              then snapshots ++ op.stack_snapshot ∷ []
              else snapshots)
            rest tr'
      | err e tr' ↦ ok (snapshots, some e) tr'
      | panic ↦ panic
    ]
  ]

  -- `ProcessExecution`
  unfoldable pub process_execution :
      List EvmInstructionMetadata → Transpiler → Outcome (Snapshots × Option Error)
  unfolding process_from
  process_execution instructions tr = process_from 0 [] instructions tr
