-- ===== src/Transpiler/Switch/Case.antt =====
-- transpiler/transpiler.go, `AddInstructionWithResult`: the cases of the switch that are longer than an
-- append.
use erigon_risc_v_executable.Prelude.{
  ℕ, zero, suc, ◌+◌, ◌*◌, List, [], ◌∷◌, Option, none, some, ltb, if◌then◌else◌, int32, pos,
  get_elem?, length, ◌++◌, Text,
}
use erigon_risc_v_executable.Opcode.{Opcode, push}
use erigon_risc_v_executable.Assembly.{sp, s3, Instruction}
use erigon_risc_v_executable.Deps.{Deps}
use erigon_risc_v_executable.Trace.{EvmExecutionState, EvmInstructionMetadata}
use erigon_risc_v_executable.Sections.{store, load}
use erigon_risc_v_executable.Emit.{
  add_imm, ebreak_instr, push_opcode, mcopy_call, save_stack_context, create_new_stack_frame,
  load_from_data_section,
}
use erigon_risc_v_executable.Emit.Copy.{calldataload_call}
use erigon_risc_v_executable.Transpiler.{TranspilerConfig}
use erigon_risc_v_executable.Transpiler.Effects.{
  M, pure, raise, deref, gets, modify, ◌>>=◌, ◌>>◌, emit, pop_args, store_debug_info, load_value,
  unimplemented, ok, panic, emit_config,
}

-- `break_switch` goes on behind the switch, `returned` leaves the method.
pub data Flow : Type 0 where
  break_switch returned : Flow

abbrev pub then_break : M (Unit {0}) → M Flow
then_break m = m >>= λ _. pure break_switch

-- the code at the ends of RETURN, REVERT and INVALID, and that inside a nested call only
unfoldable pub return_code : TranspilerConfig → List Instruction
return_code config =
    if config.disable_call_context_separation then [] else add_imm sp s3 (pos 0) ∷ []

unfoldable pub nested_ebreak : ℕ → List Instruction
nested_ebreak depth = if ltb 0 depth then ebreak_instr ∷ [] else []

-- the ends of RETURN, REVERT and INVALID
unfoldable pub leave_frame : Deps → ℕ → Opcode → M Flow
unfolding store_debug_info return_code nested_ebreak
leave_frame d start op = do
  emit_config return_code
  depth ← gets (λ tr. tr.current_depth)
  emit (nested_ebreak depth)
  store_debug_info start (d.op_string op)
  pure returned

-- the code at the ends of the four calls
unfoldable pub call_code : TranspilerConfig → List Instruction
call_code config =
    if config.disable_call_context_separation
    then []
    else save_stack_context ++ create_new_stack_frame

-- the ends of the four calls
unfoldable pub enter_frame : M (Unit {0})
unfolding call_code
enter_frame = do
  emit_config call_code
  modify λ tr. record tr { current_depth = tr.current_depth + 1 }

module _ (d : Deps) (op : EvmInstructionMetadata) where
  -- the key of a slot: `getStorageKey(op.StackSnapshot[i])`
  abbrev pub storage_key : ℕ → M Text
  storage_key i = do word ← deref (get_elem? op.stack_snapshot i); pure (d.hex word)

  -- `storageSection.Store`; the name is not used
  unfoldable pub store_slot : Text → ℕ → M (Unit {0})
  unfolding store
  store_slot key value = modify λ tr.
      let (ss, ds, _) = store d key value tr.storage_section tr.data_section in
      record tr { storage_section = ss; data_section = ds }

  -- `storageSection.Load`
  unfoldable pub load_slot : Text → M Text
  unfolding load
  load_slot key tr =
      let (ss, ds, name) = load d key tr.storage_section tr.data_section in
      ok name (record tr { storage_section = ss; data_section = ds })

  -- SSTORE and TSTORE
  unfoldable pub store_case : M (Unit {0})
  unfolding store_slot
  store_case = do
    emit (pop_args 2)
    key ← storage_key 1
    value ← deref (get_elem? op.stack_snapshot 0)
    store_slot key value

  -- SLOAD and TLOAD
  unfoldable pub load_case : M (Unit {0})
  unfolding load_slot
  load_case = do
    key ← storage_key 0
    emit (pop_args 1)
    name ← load_slot key
    emit (load_from_data_section name)

  -- `calldataloadCall`, and the append of its result
  unfoldable pub load_call_data : ℕ → List ℕ → M (Unit {0})
  unfolding calldataload_call
  load_call_data offset call_data tr = elim (calldataload_call d offset call_data tr.data_section) [
    | none ↦ panic
    | some (ds, is) ↦ ok tt (record tr { data_section = ds; instructions = tr.instructions ++ is })
  ]

  -- CALLDATALOAD
  unfoldable pub calldataload_case : Option EvmExecutionState → M (Unit {0})
  unfolding load_call_data
  calldataload_case state = do
    emit (pop_args 1)
    word ← deref (get_elem? op.stack_snapshot 0)
    st ← deref state
    load_call_data (d.uint64 word) st.call_data

  -- the copies of MCOPY, where they are enabled
  unfoldable pub mcopy_rest : TranspilerConfig → M (Unit {0})
  unfolding mcopy_call
  mcopy_rest config = if config.disable_m_copy_operations then pure tt else do
    dest_offset ← deref (get_elem? op.stack_snapshot 2)
    src_offset ← deref (get_elem? op.stack_snapshot 1)
    length ← deref (get_elem? op.stack_snapshot 0)
    emit (mcopy_call (d.uint64 dest_offset) (d.uint64 src_offset) (d.uint64 length))

  -- MCOPY
  unfoldable pub mcopy_case : M (Unit {0})
  unfolding mcopy_rest
  mcopy_case = do emit (pop_args 3); config ← gets (λ tr. tr.config); mcopy_rest config

  -- PUSH0 to PUSH32; the bytes of the short ones are joined big-endian
  unfoldable pub push_case : ℕ → M (Unit {0})
  unfolding load_value
  push_case zero = emit (push_opcode (pos 0))
  push_case (suc zero) = do a ← deref (get_elem? op.arguments 0); emit (push_opcode (int32 a))
  push_case (suc (suc zero)) = do
    a ← deref (get_elem? op.arguments 0)
    b ← deref (get_elem? op.arguments 1)
    emit (push_opcode (int32 (a * 256 + b)))
  push_case (suc (suc (suc zero))) = do
    a ← deref (get_elem? op.arguments 0)
    b ← deref (get_elem? op.arguments 1)
    c ← deref (get_elem? op.arguments 2)
    emit (push_opcode (int32 (a * 65536 + b * 256 + c)))
  push_case (suc (suc (suc (suc zero)))) = do
    a ← deref (get_elem? op.arguments 0)
    b ← deref (get_elem? op.arguments 1)
    c ← deref (get_elem? op.arguments 2)
    e ← deref (get_elem? op.arguments 3)
    emit (push_opcode (int32 (a * 16777216 + b * 65536 + c * 256 + e)))
  push_case (suc (suc (suc (suc (suc n))))) =
      if ltb n 28
      then load_value d (d.set_bytes op.arguments)
      else raise (unimplemented (push (n + 5)))
