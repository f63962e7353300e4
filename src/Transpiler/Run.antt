-- ===== src/Transpiler/Run.antt =====
-- The transpiler from its start (transpiler/transpiler.go, `NewTranspiler`): a trace, the assembly
-- file that it becomes, and that file's run.
use erigon_risc_v_executable.Prelude.{
  ℕ, ◌+◌, ◌*◌, ◌++◌, ◌≡◌, refl, sym, ap, subst, ◌∙◌, List, Option, none, some,
}
use erigon_risc_v_executable.Assembly.{sp, Instruction}
use erigon_risc_v_executable.Deps.{Deps}
use erigon_risc_v_executable.Trace.{EvmExecutionState, EvmInstructionMetadata}
use erigon_risc_v_executable.Sections.Invariant.{new_data_section-IsIndexed, IsExtended}
use erigon_risc_v_executable.Sections.Storage.{new_storage_section-IsStored}
use erigon_risc_v_executable.Machine.{Machine, Linked, word, exec}
use erigon_risc_v_executable.Transpiler.{Transpiler, production_config, new_transpiler, to_assembly}
use erigon_risc_v_executable.Transpiler.Effects.{Outcome, ok, err, panic}
use erigon_risc_v_executable.Transpiler.Step.{
  process_execution, add_instruction_with_result, Snapshots,
}
use erigon_risc_v_executable.Transpiler.Arity.{IsFilled}
use erigon_risc_v_executable.Transpiler.Does.{IsWellFormed, Covers, Extends}
use erigon_risc_v_executable.Transpiler.Moves.{
  IsReady, item_pops, item_pushes, add_instruction_with_result-Does, AllReady, trace_pops,
  trace_pushes, process_execution-Extends,
}

pub new_transpiler-IsWellFormed : (d : Deps) → IsWellFormed d new_transpiler
unfolding new_transpiler
new_transpiler-IsWellFormed d = record {
  indexed = new_data_section-IsIndexed d;
  stored = new_storage_section-IsStored d _;
}

-- the transpiler that a method leaves, `tr` where it panics
abbrev pub final {ℓ} : {A : Type ℓ} → Transpiler → Outcome A → Transpiler
final tr (ok _ tr') = tr'
final tr (err _ tr') = tr'
final tr panic = tr

-- a new transpiler after a trace
abbrev pub transpiled : Deps → EvmExecutionState → List EvmInstructionMetadata → Transpiler
transpiled d st ops = final new_transpiler (process_execution d (some st) ops new_transpiler)

-- A trace whose items can be translated is translated by a new transpiler without an error or a
-- panic, the data section keeps its invariant, and on every machine whose linker places the
-- exported variables the exported instructions run to their end, the stack pointer rising by 32
-- bytes for each item that the trace pops and falling by 32 for each that it pushes, modulo 2 ^ 32;
-- the pops and pushes of an opcode are those of the EVM, but for DIFFICULTY, GASLIMIT and BASEFEE,
-- which pop one more, and the four calls, which push nothing; an item that marks the end of a
-- frame, be it of a call or of a creation, pops nothing and pushes its result if it has one, so
-- that a creation that ran a frame has pushed twice.
pub process_execution-runs :
    (d : Deps) (st : EvmExecutionState) (ops : List EvmInstructionMetadata) (l : Linked)
    (m : Machine)
    → IsFilled st
    → AllReady ops
    → Covers l (transpiled d st ops).data_section
    → (snaps : Snapshots) × (process_execution d (some st) ops new_transpiler
        ≡ ok (snaps, none) (transpiled d st ops))
      × IsWellFormed d (transpiled d st ops)
      × (m' : Machine) × (exec l (to_assembly (transpiled d st ops)).instructions m ≡ some m')
      × (word (m'.regs sp + 32 * trace_pushes ops) ≡ word (m.regs sp + 32 * trace_pops ops))
unfolding to_assembly new_transpiler
process_execution-runs d st ops l m filled ready cover =
    let (snaps, tr', e, x) =
      process_execution-Extends d st filled ops new_transpiler ready refl
        (new_transpiler-IsWellFormed d) in
    let same : tr' ≡ transpiled d st ops = sym (ap (final new_transpiler) e) in
    let y = subst (λ t. Extends d (trace_pops ops) (trace_pushes ops) new_transpiler t) same x in
    let (m', runs, moved, _) = (y.balanced l cover).runs m in
    (snaps, e ∙ ap (ok (snaps, none)) same, y.well_formed, m', rw y.appended runs, moved)

-- a transpiler after an item
abbrev pub after_item :
    Deps → EvmInstructionMetadata → EvmExecutionState → Option (List ℕ) → Transpiler → Transpiler
after_item d op st result_stack tr =
    final tr (add_instruction_with_result d op (some st) result_stack tr)

-- Every item that can be translated is, by every transpiler in the configuration of the commands
-- whose sections keep their invariant: the method returns, the invariant holds again, the variables
-- of the data section keep their places and values, with any new ones behind them, and the appended
-- instructions run to their end on every machine whose linker places the variables, the stack
-- pointer rising by 32 bytes for each pop and falling by 32 for each push, modulo 2 ^ 32; the pops
-- and pushes of an opcode are those of the EVM, but for DIFFICULTY, GASLIMIT and BASEFEE, which pop
-- one more, and the four calls, which push nothing; an item that marks the end of a frame, be it of
-- a call or of a creation, pops nothing and pushes its result if it has one.
pub add_instruction_with_result-runs :
    (d : Deps) (op : EvmInstructionMetadata) (st : EvmExecutionState)
    (result_stack : Option (List ℕ)) (tr : Transpiler) (l : Linked) (m : Machine)
    → IsFilled st
    → IsReady op result_stack
    → tr.config ≡ production_config
    → IsWellFormed d tr
    → Covers l (after_item d op st result_stack tr).data_section
    → let tr' = after_item d op st result_stack tr in
      (add_instruction_with_result d op (some st) result_stack tr ≡ ok tt tr')
      × IsWellFormed d tr'
      × IsExtended tr.data_section tr'.data_section
      × (code : List Instruction) × (tr'.instructions ≡ tr.instructions ++ code)
      × (m' : Machine) × (exec l code m ≡ some m')
      × (word (m'.regs sp + 32 * item_pushes op) ≡ word (m.regs sp + 32 * item_pops op))
add_instruction_with_result-runs d op st result_stack tr l m filled ready prod inv cover =
    let (_, tr', e, x) =
      (add_instruction_with_result-Does d op st result_stack filled ready).at tr prod inv in
    let same : tr' ≡ after_item d op st result_stack tr = sym (ap (final tr) e) in
    let y = subst (λ t. Extends d (item_pops op) (item_pushes op) tr t) same x in
    let (m', runs, moved, _) = (y.balanced l cover).runs m in
    (e ∙ ap (ok tt) same, y.well_formed, y.grown, y.code, y.appended, m', runs, moved)
