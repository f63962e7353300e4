-- ===== src/Transpiler/Moves.antt =====
-- `AddInstructionWithResult` and `ProcessExecution` (transpiler/transpiler.go) in the configuration
-- of the commands: what an item of a trace, and a whole trace, does to the stack pointer.
use erigon_risc_v_executable.Prelude.{
  ℕ, ◌-◌, suc, ltb, ◌&&◌, ◌++◌, ◌∙◌, ◌+◌, ◌≡◌, refl, List, [], ◌∷◌, Option, none, some, Bool, true,
  false, int32, length, if◌then◌else◌, codes, arith,
}
use erigon_risc_v_executable.Deps.{Deps}
use erigon_risc_v_executable.Trace.{EvmExecutionState, EvmInstructionMetadata}
use erigon_risc_v_executable.Machine.Balance.{Balanced-nil, Balanced-ebreak, Balanced-push_opcode}
use erigon_risc_v_executable.Transpiler.{Transpiler, production_config}
use erigon_risc_v_executable.Transpiler.Effects.{M, ok, emit, ◌>>=◌}
use erigon_risc_v_executable.Transpiler.Step.{
  decrement_depth, result_code, restore_code, restore_instruction, finish_instruction,
  add_instruction_with_result, result_stack_of, process_from, process_execution, Snapshots,
}
use erigon_risc_v_executable.Transpiler.Switch.{Flow, break_switch, returned, switch_arithmetic}
use erigon_risc_v_executable.Transpiler.Arity.{
  evm_pops, evm_pushes, extra_pops, late_pushes, IsFilled, HasOperands, HasResult,
}
use erigon_risc_v_executable.Transpiler.Does.{
  IsWellFormed, Extends, Extends-refl, Extends-trans, Does, Does-bind, Does-resize, Does-pure,
  Does-emit, Does-emit_config, Does-modify, Does-store_debug_info,
}
use erigon_risc_v_executable.Transpiler.Sound.{switch-Does}

-- What an item takes from the stack and puts on it: the opcode's items, or the result of a call
-- that ends.
abbrev pub item_pops : EvmInstructionMetadata → ℕ
item_pops op = if op.is_stack_restore then 0 else evm_pops op.opcode + extra_pops op.opcode

abbrev pub result_pushes : Option ℕ → ℕ
result_pushes none = 0
result_pushes (some _) = 1

abbrev pub item_pushes : EvmInstructionMetadata → ℕ
item_pushes op =
    if op.is_stack_restore
    then result_pushes op.result
    else evm_pushes op.opcode - late_pushes op.opcode

-- An item that can be translated.
abbrev pub IsReady : EvmInstructionMetadata → Option (List ℕ) → Type 0
IsReady op result_stack =
    if op.is_stack_restore
    then Unit
    else HasOperands op op.opcode × HasResult result_stack op.opcode

if_false : (P Q : Type 0) (b : Bool) → (if b then P else Q) → b ≡ false → Q
if_false P Q true h e = cc
if_false P Q false h e = h

module _ (d : Deps) where
  Does-finish :
      (op : EvmInstructionMetadata) (start : ℕ) (f : Flow)
      → Does d (finish_instruction d op start f) 0 0
  unfolding finish_instruction
  Does-finish op start returned = Does-pure d tt
  Does-finish op start break_switch =
      Does-bind d _ _ (Does-emit d (λ l. Balanced-ebreak l))
        (λ _. Does-store_debug_info d start (d.op_string op.opcode))

  Does-result_code : (o : Option ℕ) → Does d (emit (result_code d o)) 0 (result_pushes o)
  Does-result_code none = Does-emit d (λ l. Balanced-nil l)
  Does-result_code (some v) = Does-emit d (λ l. Balanced-push_opcode l (int32 (d.uint64 v)))

  Does-restore :
      (op : EvmInstructionMetadata) (start : ℕ)
      → Does d (restore_instruction d op start) 0 (result_pushes op.result)
  unfolding restore_instruction
  Does-restore op start =
      Does-resize d 0 (0 + (0 + (result_pushes op.result + (0 + 0))))
        (Does-bind d _ _ (Does-modify d (decrement_depth d) (λ tr. (refl, refl, refl, refl))) λ _.
          Does-bind d _ _ (Does-emit_config d (restore_code d) (λ l. Balanced-nil l)) λ _.
            Does-bind d _ _ (Does-result_code op.result) λ _.
              Does-bind d _ _ (Does-emit d (λ l. Balanced-ebreak l))
                λ _. Does-store_debug_info d start (codes "STACK_RESTORE"))
        (omega arith) (omega arith)

  Does-if :
      (b : Bool) {m n : M (Unit {0})} {p q p' q' : ℕ}
      → (b ≡ true → Does d m p q)
      → (b ≡ false → Does d n p' q')
      → Does d (λ tr. if b then m tr else n tr) (if b then p else p') (if b then q else q')
  Does-if true hm hn = hm refl
  Does-if false hm hn = hn refl

  -- a method that first measures the instructions
  Does-start :
      (m : ℕ → M (Unit {0})) {p q : ℕ}
      → ((start : ℕ) → Does d (m start) p q)
      → Does d (λ tr. m (length tr.instructions) tr) p q
  Does-start m h = record { at = λ tr prod inv. (h (length tr.instructions)).at tr prod inv }

  -- An item that can be translated is: the method returns, and appends code that moves the stack
  -- pointer as the item moves the EVM's.
  pub add_instruction_with_result-Does :
      (op : EvmInstructionMetadata) (st : EvmExecutionState) (result_stack : Option (List ℕ))
      → IsFilled st
      → IsReady op result_stack
      → Does d
          (add_instruction_with_result d op (some st) result_stack)
          (item_pops op)
          (item_pushes op)
  unfolding add_instruction_with_result
  add_instruction_with_result-Does op st result_stack filled ready =
      Does-if op.is_stack_restore (λ _. Does-start (restore_instruction d op) (Does-restore op))
        λ running.
          let (operands, result) = if_false _ _ op.is_stack_restore ready running in
          Does-start
            (λ start.
              switch_arithmetic d op (some st) result_stack start op.opcode
              >>= finish_instruction d op start)
            λ start.
              Does-resize d (evm_pops op.opcode + extra_pops op.opcode + 0)
                (evm_pushes op.opcode - late_pushes op.opcode + 0)
                (Does-bind d _ _
                  (switch-Does d op st filled result_stack start op.opcode operands result)
                  (Does-finish op start))
                (omega arith) (omega arith)

-- Every item of a trace finds the result stack that it needs, and can be translated.
abbrev pub AllReady : List EvmInstructionMetadata → Type 0
AllReady [] = Unit
AllReady (op ∷ rest) =
    ((r : Option (List ℕ)) × (result_stack_of op rest ≡ some r) × IsReady op r) × AllReady rest

abbrev pub trace_pops : List EvmInstructionMetadata → ℕ
trace_pops [] = 0
trace_pops (op ∷ rest) = item_pops op + trace_pops rest

abbrev pub trace_pushes : List EvmInstructionMetadata → ℕ
trace_pushes [] = 0
trace_pushes (op ∷ rest) = item_pushes op + trace_pushes rest

module _ (d : Deps) (st : EvmExecutionState) (filled : IsFilled st) where
  process_from-Extends :
      (i : ℕ) (snaps : Snapshots) (ops : List EvmInstructionMetadata) (tr : Transpiler)
      → AllReady ops
      → tr.config ≡ production_config
      → IsWellFormed d tr
      → (snaps' : Snapshots) × (tr' : Transpiler) × (process_from d (some st) i snaps ops tr
          ≡ ok (snaps', none) tr')
        × Extends d (trace_pops ops) (trace_pushes ops) tr tr'
  unfolding process_from
  process_from-Extends i snaps [] tr ready prod inv = (snaps, tr, refl, Extends-refl d tr inv)
  process_from-Extends i snaps (op ∷ rest) tr ((r, stack, now), later) prod inv =
      let (_, t1, e1, s1) =
        (add_instruction_with_result-Does d op st r filled now).at tr prod inv in
      let snaps1 =
        if ltb 0 i && t1.enable_snapshots then snaps ++ op.stack_snapshot ∷ [] else snaps in
      let (snaps', t2, e2, s2) =
        process_from-Extends (suc i) snaps1 rest t1 later (s1.same_config ∙ prod) s1.well_formed in
      (snaps', t2, rw (stack, e1, process_from) e2, Extends-trans d s1 s2)

  -- A trace whose items can be translated is translated, without an error or a panic, and the code
  -- that it adds runs through and moves the stack pointer by the items' pops and pushes together.
  pub process_execution-Extends :
      (ops : List EvmInstructionMetadata) (tr : Transpiler)
      → AllReady ops
      → tr.config ≡ production_config
      → IsWellFormed d tr
      → (snaps : Snapshots) × (tr' : Transpiler) × (process_execution d (some st) ops tr
          ≡ ok (snaps, none) tr')
        × Extends d (trace_pops ops) (trace_pushes ops) tr tr'
  unfolding process_execution
  process_execution-Extends ops tr ready prod inv = process_from-Extends 0 [] ops tr ready prod inv
