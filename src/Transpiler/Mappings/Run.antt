-- ===== src/Transpiler/Mappings/Run.antt =====
-- `AddInstructionWithResult` and `ProcessExecution` (transpiler/transpiler.go) with the debug mappings, and
-- the file that the debugger (cmd/debug-transpiler/main.go, `buildAssemblyUpTo`) joins from all of them.
use erigon_risc_v_executable.Prelude.{
  ℕ, zero, suc, take, drop, ◌≡◌, refl, sym, ap, subst, ◌∙◌, List, [], ◌∷◌, ◌++◌, append_assoc,
  append-nil, Option, Bool, true, false, length, codes, Option-cases, inl, inr, if◌then◌else◌,
}
use erigon_risc_v_executable.Assembly.{Instruction, AssemblyFile}
use erigon_risc_v_executable.Debugger.{collect}
use erigon_risc_v_executable.Deps.{Deps}
use erigon_risc_v_executable.Emit.{ebreak_instr}
use erigon_risc_v_executable.Trace.{EvmExecutionState, EvmInstructionMetadata}
use erigon_risc_v_executable.Transpiler.{Transpiler, EvmToRiscVMapping, to_assembly}
use erigon_risc_v_executable.Transpiler.Effects.{Error, Outcome, ok, err, panic, store_debug_info}
use erigon_risc_v_executable.Transpiler.Errors.{add_instruction_with_result-atomic, Outcome-cases}
use erigon_risc_v_executable.Transpiler.Switch.{Flow, break_switch, returned, switch_arithmetic}
use erigon_risc_v_executable.Transpiler.Step.{
  Snapshots, restore_code, result_code, decrement_depth, restore_instruction, finish_instruction,
  add_instruction_with_result, result_stack_of, process_from, process_execution,
}
use erigon_risc_v_executable.Transpiler.Mappings.Adding.{
  After, returns, fails, panics, Adds-trans, After-bind,
}
use erigon_risc_v_executable.Transpiler.Mappings.Recorded.{
  recorded, Records, Records-refl, stored-Records,
}
use erigon_risc_v_executable.Transpiler.Mappings.Switched.{Switched, switch-Switched}

pub Records-trans : {a b c : Transpiler} → Records a b → Records b c → Records a c
Records-trans x y = record {
  code = x.code ++ y.code;
  appended = y.appended ∙ rw x.appended (append_assoc _ x.code y.code);
  mapped = y.mapped ∙ rw x.mapped (append_assoc _ x.code y.code);
  same_config = y.same_config ∙ x.same_config;
}

After-if :
    {A : Type 0} {Q : A → Transpiler → Type 0} (b : Bool) (o p : Outcome A)
    → After Q o
    → After Q p
    → After Q (if b then o else p)
After-if true o p x y = x
After-if false o p x y = y

module _ (d : Deps) (op : EvmInstructionMetadata) (tr : Transpiler)
    (enabled : tr.config.disable_debug_mappings ≡ false) where
  restore-Records :
      After (λ _ t. Records tr t) (restore_instruction d op (length tr.instructions) tr)
  unfolding restore_instruction store_debug_info
  restore-Records =
      let code = (restore_code d tr.config ++ result_code d op.result) ++ ebreak_instr ∷ [] in
      let last = record (decrement_depth d tr) {
        instructions =
            ((tr.instructions ++ restore_code d tr.config) ++ result_code d op.result)
            ++ ebreak_instr ∷ [];
      } in
      returns (
        stored-Records tr last (codes "STACK_RESTORE") enabled (record {
          code = code;
          appended =
              rw (append_assoc tr.instructions (restore_code d tr.config) (result_code d op.result))
                (append_assoc tr.instructions _ (ebreak_instr ∷ []));
          same_mappings = refl;
          same_config = refl;
        }))

  finish-Records :
      (f : Flow) (t : Transpiler)
      → Switched tr f t
      → After (λ _ t'. Records tr t') (finish_instruction d op (length tr.instructions) f t)
  unfolding finish_instruction store_debug_info
  finish-Records returned t x = returns x
  finish-Records break_switch t x =
      let last = record t { instructions = t.instructions ++ ebreak_instr ∷ [] } in
      returns (
        stored-Records tr last (d.op_string op.opcode) enabled (
          Adds-trans x (record {
            code = ebreak_instr ∷ [];
            appended = refl;
            same_mappings = refl;
            same_config = refl;
          })))

  pub item-Records :
      (state : Option EvmExecutionState) (result_stack : Option (List ℕ))
      → After (λ _ t. Records tr t) (add_instruction_with_result d op state result_stack tr)
  unfolding add_instruction_with_result
  item-Records state result_stack =
      let start = length tr.instructions in
      After-if op.is_stack_restore _ _ restore-Records (
        After-bind (switch_arithmetic d op state result_stack start op.opcode tr)
          (finish_instruction d op start)
          (switch-Switched d op state result_stack tr enabled op.opcode) finish-Records)

Holds : {A : Type 0} → (A → Transpiler → Type 0) → Outcome A → Type 0
Holds Q (ok a t) = Q a t
Holds Q (err e t) = Unit
Holds Q panic = Unit

After-Holds : {A : Type 0} {Q : A → Transpiler → Type 0} {o : Outcome A} → After Q o → Holds Q o
unfolding Holds
After-Holds (returns q) = q
After-Holds fails = tt
After-Holds panics = tt

After-ok :
    {A : Type 0} {Q : A → Transpiler → Type 0} {o : Outcome A} {a : A} {t : Transpiler}
    → After Q o
    → o ≡ ok a t
    → Q a t
unfolding Holds
After-ok {Q} x e = subst (Holds Q) e (After-Holds x)

After-map :
    {A : Type 0} {Q R : A → Transpiler → Type 0} (o : Outcome A)
    → After Q o
    → ((a : A) (t : Transpiler) → Q a t → After R (ok a t))
    → After R o
After-map _ (returns {a} {t} q) k = k a t q
After-map _ fails k = fails
After-map _ panics k = panics

-- the file that `buildAssemblyUpTo` starts from
abbrev pub no_code : AssemblyFile
no_code = record { instructions = []; data_section = [] }

module _ (d : Deps) (state : Option EvmExecutionState) where
  process_from-Records :
      (i : ℕ) (snaps : Snapshots) (ops : List EvmInstructionMetadata) (tr : Transpiler)
      → tr.config.disable_debug_mappings ≡ false
      → After (λ _ t. Records tr t) (process_from d state i snaps ops tr)
  unfolding process_from
  process_from-Records i snaps [] tr enabled = returns (Records-refl tr)
  process_from-Records i snaps (op ∷ rest) tr enabled =
      elim (Option-cases (result_stack_of op rest)) [
        | inl none_found ↦ rw (none_found, process_from) panics
        | inr (r, found) ↦ elim (Outcome-cases (add_instruction_with_result d op state r tr)) [
          | inl (_, t, done) ↦
              let x = After-ok (item-Records d op tr enabled state r) done in
              let enabled' = ap (λ c. c.disable_debug_mappings) x.same_config ∙ enabled in
              rw (found, done, process_from)
                (After-map _ (process_from-Records (suc i) _ rest t enabled')
                  (λ _ _ y. returns (Records-trans x y)))
          | inr (inl (x, t, failed)) ↦
              rw (found, failed, process_from)
                (returns (
                  subst (λ k. Records tr k)
                    (sym (add_instruction_with_result-atomic d op state r tr t x failed))
                    (Records-refl tr)))
          | inr (inr panicked) ↦ rw (found, panicked, process_from) panics
        ]
      ]

  collect-recorded :
      (xs : List EvmToRiscVMapping) (file : AssemblyFile)
      → (collect xs file).instructions ≡ file.instructions ++ recorded xs
  unfolding collect recorded
  collect-recorded [] file = sym (append-nil file.instructions)
  collect-recorded (x ∷ xs) file =
      collect-recorded xs _ ∙ append_assoc file.instructions x.risc_v_instructions (recorded xs)

  recorded-take :
      (n : ℕ) (xs : List EvmToRiscVMapping)
      → recorded xs ≡ recorded (take n xs) ++ recorded (drop n xs)
  unfolding recorded
  recorded-take zero xs = refl
  recorded-take (suc n) [] = refl
  recorded-take (suc n) (x ∷ xs) =
      ap (λ ys. x.risc_v_instructions ++ ys) (recorded-take n xs)
      ∙ sym (append_assoc x.risc_v_instructions (recorded (take n xs)) (recorded (drop n xs)))

  -- The debug mappings are the whole program, where they are enabled: when the file that the
  -- debugger joins from all mappings of a transpiler has the instructions of its assembly file,
  -- then after any trace, also one that ends with an error, it has them again; and what the
  -- debugger joins from the first n mappings is, for every n, the beginning of the instructions of
  -- the assembly file.
  pub process_execution-collect :
      (ops : List EvmInstructionMetadata) (tr tr' : Transpiler) (snaps : Snapshots)
      (e : Option Error)
      → tr.config.disable_debug_mappings ≡ false
      → (collect tr.debug_mappings no_code).instructions ≡ (to_assembly tr).instructions
      → process_execution d state ops tr ≡ ok (snaps, e) tr'
      → ((collect tr'.debug_mappings no_code).instructions ≡ (to_assembly tr').instructions)
        × ((n : ℕ)
            → (rest : List Instruction) × ((to_assembly tr').instructions
                ≡ (collect (take n tr'.debug_mappings) no_code).instructions ++ rest))
  unfolding process_execution to_assembly
  process_execution-collect ops tr tr' snaps e enabled mapped ran =
      let x = After-ok (process_from-Records 0 [] ops tr enabled) ran in
      let before : recorded tr.debug_mappings ≡ tr.instructions =
        sym (collect-recorded tr.debug_mappings no_code) ∙ mapped in
      let all : recorded tr'.debug_mappings ≡ tr'.instructions =
        x.mapped ∙ ap (λ ys. ys ++ x.code) before ∙ sym x.appended in
      (
        collect-recorded tr'.debug_mappings no_code ∙ all,
        λ n. (
          recorded (drop n tr'.debug_mappings),
          sym all
              ∙ recorded-take n tr'.debug_mappings
              ∙ ap (λ ys. ys ++ recorded (drop n tr'.debug_mappings))
                  (sym (collect-recorded (take n tr'.debug_mappings) no_code)),
        ),
      )
