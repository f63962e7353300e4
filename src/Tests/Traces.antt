-- ===== src/Tests/Traces.antt =====
-- The theorems on whole traces and on items, at the trace of the tests.
use erigon_risc_v_executable.Prelude.{
  ◌+◌, ◌*◌, ◌≡◌, refl, List, [], ◌∷◌, ◌++◌, take, ℕ, none, some, arith,
}
use erigon_risc_v_executable.Opcode.{mload, other}
use erigon_risc_v_executable.Assembly.{sp, Instruction}
use erigon_risc_v_executable.Sections.Invariant.{IsExtended}
use erigon_risc_v_executable.Machine.{Machine, word, exec}
use erigon_risc_v_executable.Transpiler.{new_transpiler, to_assembly}
use erigon_risc_v_executable.Transpiler.Effects.{ok, unimplemented}
use erigon_risc_v_executable.Transpiler.Step.{
  process_execution, add_instruction_with_result, result_stack_of, Snapshots,
}
use erigon_risc_v_executable.Transpiler.Arity.{IsFilled}
use erigon_risc_v_executable.Transpiler.Does.{IsWellFormed}
use erigon_risc_v_executable.Transpiler.Moves.{AllReady}
use erigon_risc_v_executable.Transpiler.Run.{
  transpiled, process_execution-runs, after_item, add_instruction_with_result-runs,
  new_transpiler-IsWellFormed,
}
use erigon_risc_v_executable.Transpiler.Errors.{
  add_instruction_with_result-atomic, process_execution-stops, Stopped,
}
use erigon_risc_v_executable.Debugger.{collect}
use erigon_risc_v_executable.Transpiler.Mappings.Run.{no_code, process_execution-collect}
use erigon_risc_v_executable.Tests.{
  test_deps, test_machine, test_linked, test_state, test_ops, bad_ops, item,
}

pub test_state-IsFilled : IsFilled test_state
test_state-IsFilled = record {
  has_call_value = (0, refl);
  has_gas = (21000, refl);
  has_timestamp = (1, refl);
  has_chain_id = (1, refl);
  has_block_number = (7, refl);
  call_data_fits = omega arith;
}

pub test_ops-AllReady : AllReady test_ops
unfolding result_stack_of
test_ops-AllReady = (
  (some (64 ∷ []), refl, ((omega arith, omega arith), tt)),
  ((some (9 ∷ []), refl, (tt, (9 ∷ [], 9, refl, refl))), ((none, refl, (tt, tt)), tt)),
)

process_execution-runs_example :
    (snaps : Snapshots) × (process_execution test_deps (some test_state) test_ops new_transpiler
      ≡ ok (snaps, none) (transpiled test_deps test_state test_ops))
    × IsWellFormed test_deps (transpiled test_deps test_state test_ops)
    × (m' : Machine) × (exec test_linked
          (to_assembly (transpiled test_deps test_state test_ops)).instructions
          test_machine
        ≡ some m')
    × (word (m'.regs sp + 32 * 2) ≡ word (4096 + 32 * 1))
process_execution-runs_example =
    process_execution-runs test_deps test_state test_ops test_linked test_machine
      test_state-IsFilled test_ops-AllReady (λ i h. (65536, refl))

add_instruction_with_result-runs_example :
    let op = item mload [] (64 ∷ []) in
    let tr' = after_item test_deps op test_state (some (9 ∷ [])) new_transpiler in
    (add_instruction_with_result test_deps op (some test_state) (some (9 ∷ [])) new_transpiler
      ≡ ok tt tr')
    × IsWellFormed test_deps tr'
    × IsExtended new_transpiler.data_section tr'.data_section
    × (code : List Instruction) × (tr'.instructions ≡ new_transpiler.instructions ++ code)
    × (m' : Machine) × (exec test_linked code test_machine ≡ some m')
    × (word (m'.regs sp + 32 * 1) ≡ word (4096 + 32 * 1))
unfolding new_transpiler
add_instruction_with_result-runs_example =
    add_instruction_with_result-runs test_deps (item mload [] (64 ∷ [])) test_state (some (9 ∷ []))
      new_transpiler test_linked test_machine test_state-IsFilled (tt, (9 ∷ [], 9, refl, refl)) refl
      (new_transpiler-IsWellFormed test_deps) (λ i h. (65536, refl))

add_instruction_with_result-atomic_example : new_transpiler ≡ new_transpiler
unfolding add_instruction_with_result
add_instruction_with_result-atomic_example =
    add_instruction_with_result-atomic test_deps (item (other 12) [] []) (some test_state) none
      new_transpiler new_transpiler (unimplemented (other 12)) refl

process_execution-stops_example :
    Stopped test_deps
      (some test_state)
      bad_ops
      (unimplemented (other 12))
      new_transpiler
      (transpiled test_deps test_state bad_ops)
unfolding process_execution
process_execution-stops_example =
    process_execution-stops test_deps (some test_state) bad_ops new_transpiler
      (transpiled test_deps test_state bad_ops) [] (unimplemented (other 12)) refl

process_execution-collect_example :
    let tr' = transpiled test_deps test_state bad_ops in
    ((collect tr'.debug_mappings no_code).instructions ≡ (to_assembly tr').instructions)
    × ((n : ℕ)
        → (rest : List Instruction) × ((to_assembly tr').instructions
            ≡ (collect (take n tr'.debug_mappings) no_code).instructions ++ rest))
unfolding process_execution new_transpiler collect to_assembly
process_execution-collect_example =
    process_execution-collect test_deps (some test_state) bad_ops new_transpiler
      (transpiled test_deps test_state bad_ops) [] (some (unimplemented (other 12))) refl refl refl
