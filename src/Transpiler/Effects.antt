-- ===== src/Transpiler/Effects.antt =====
-- Methods of `Transpiler` (transpiler/transpiler.go) that change it and may fail. What was done
-- before an error stays done, so the state comes back beside the error too; a panic ends the run.
use erigon_risc_v_executable.Prelude.{
  ℕ, zero, suc, List, [], ◌++◌, Option, none, some, String, Text, drop, last?, if◌then◌else◌, pos,
  ◌∷◌,
}
use erigon_risc_v_executable.Opcode.{Opcode}
use erigon_risc_v_executable.Assembly.{Instruction}
use erigon_risc_v_executable.Deps.{Deps}
use erigon_risc_v_executable.Sections.{add, iter}
use erigon_risc_v_executable.Emit.{pop_stack, push_opcode, load_from_data_section}
use erigon_risc_v_executable.Transpiler.{Transpiler, TranspilerConfig}

-- `fmt.Errorf("unimplemented opcode…")`, "… requires result stack but none provided" and
-- "… requires result stack but it's empty"
pub data Error : Type 0 where
  unimplemented : Opcode → Error
  no_result_stack empty_result_stack : String → Error

pub data Outcome {ℓ} (A : Type ℓ) : Type ℓ where
  ok : A → Transpiler → Outcome A
  err : Error → Transpiler → Outcome A
  panic : Outcome A

abbrev pub M {ℓ} : Type ℓ → Type ℓ
M A = Transpiler → Outcome A

module _ {ℓ} {A : Type ℓ} where
  abbrev pub pure : A → M A
  pure a tr = ok a tr

  abbrev pub raise : Error → M A
  raise e tr = err e tr

  -- an index or a nil pointer that Go checks
  abbrev pub deref : Option A → M A
  deref none tr = panic
  deref (some a) tr = ok a tr

  abbrev pub gets : (Transpiler → A) → M A
  gets f tr = ok (f tr) tr

abbrev pub modify : (Transpiler → Transpiler) → M (Unit {0})
modify f tr = ok tt (f tr)

module _ {ℓ κ} {A : Type ℓ} {B : Type κ} where
  abbrev pub continue : (A → M B) → Outcome A → Outcome B
  continue f (ok a tr) = f a tr
  continue f (err e tr) = err e tr
  continue f panic = panic

  infixl 5 ◌>>=◌
  abbrev pub ◌>>=◌ : M A → (A → M B) → M B
  ◌>>=◌ m f tr = continue f (m tr)

infixl 5 ◌>>◌
abbrev pub ◌>>◌ {ℓ} : {B : Type ℓ} → M (Unit {0}) → M B → M B
m >> k = m >>= λ _. k

-- `tr.instructions = append(tr.instructions, is...)`
abbrev pub emit : List Instruction → M (Unit {0})
emit is = modify λ tr. record tr { instructions = tr.instructions ++ is }

-- the same with a run that depends on the configuration
abbrev pub emit_config : (TranspilerConfig → List Instruction) → M (Unit {0})
emit_config f = modify λ tr. record tr { instructions = tr.instructions ++ f tr.config }

-- the loops that append `popStack()` once for each argument
unfoldable pub pop_args : ℕ → List Instruction
pop_args zero = []
pop_args (suc n) = pop_stack ++ pop_args n

unfoldable pub host_optimized_opcode : TranspilerConfig → List Instruction → ℕ → List Instruction
unfolding pop_args
host_optimized_opcode config original num_stack_args =
    if config.disable_host_optimized_opcodes
    then pop_args num_stack_args ++ push_opcode (pos 0)
    else original

-- `emit` of an opcode that may be host-optimized
abbrev pub emit_host : List Instruction → ℕ → M (Unit {0})
emit_host original n = emit_config λ config. host_optimized_opcode config original n

-- `storeDebugInfo`, the opcode by its name
unfoldable pub store_debug_info : ℕ → Text → M (Unit {0})
unfolding iter
store_debug_info start evm_opcode = modify λ tr.
    if tr.config.disable_debug_mappings then tr else record tr {
      debug_mappings =
          tr.debug_mappings
          ++ record {
            evm_opcode = evm_opcode;
            risc_v_instructions = drop start tr.instructions;
            data_variables = iter tr.data_section;
            call_depth = tr.current_depth;
          }
            ∷ [];
    }

module _ (d : Deps) where
  -- `tr.dataSection.Add(value)`
  unfoldable pub add_value : ℕ → M Text
  add_value value tr =
      let (ds, name) = add d value tr.data_section in ok name (record tr { data_section = ds })

  -- `varName := tr.dataSection.Add(value)`, then the load of that variable
  unfoldable pub load_value : ℕ → M (Unit {0})
  unfolding add_value
  load_value value = do name ← add_value value; emit (load_from_data_section name)

  -- `resultFromTraceCall`
  unfoldable pub result_from_trace_call : Option (List ℕ) → ℕ → String → M (List Instruction)
  unfolding add_value pop_args
  result_from_trace_call none num_args op_name = raise (no_result_stack op_name)
  result_from_trace_call (some a) num_args op_name = elim (last? a) [
    | none ↦ raise (empty_result_stack op_name)
    | some result ↦ do
      name ← add_value result
      pure (pop_args num_args ++ load_from_data_section name)
  ]

  -- a case of the switch that appends what `resultFromTraceCall` returns
  unfoldable pub emit_result : Option (List ℕ) → ℕ → String → M (Unit {0})
  unfolding result_from_trace_call
  emit_result result_stack num_args op_name = do
    is ← result_from_trace_call result_stack num_args op_name
    emit is
