-- ===== src/Transpiler/Mappings/Case.antt =====
-- The longer cases of the switch of `AddInstructionWithResult` (transpiler/transpiler.go) only append
-- instructions and leave the debug mappings.
use erigon_risc_v_executable.Prelude.{
  ℕ, ◌+◌, zero, suc, refl, ltb, List, Text, Option, Option-cases, inl, inr, get_elem?,
}
use erigon_risc_v_executable.Deps.{Deps}
use erigon_risc_v_executable.Emit.{load_from_data_section, mcopy_call}
use erigon_risc_v_executable.Emit.Copy.{calldataload_call}
use erigon_risc_v_executable.Trace.{EvmExecutionState, EvmInstructionMetadata}
use erigon_risc_v_executable.Transpiler.Effects.{emit, emit_config, gets, pop_args, deref}
use erigon_risc_v_executable.Transpiler.Switch.{
  call_code, enter_frame, storage_key, store_slot, load_slot, store_case, load_case, load_call_data,
  calldataload_case, mcopy_rest, mcopy_case, push_case,
}
use erigon_risc_v_executable.Transpiler.Mappings.Adding.{
  IsAdding, returns, panics, Adds-refl, Adding-bind, Adding-emit, Adding-emit_config, Adds-kept,
  Adding-deref, Adding-raise, Adding-if, Adding-load_value,
}

pub Adding-enter_frame : IsAdding enter_frame
unfolding enter_frame
Adding-enter_frame = Adding-bind (emit_config call_code) _ (Adding-emit_config _) λ _.
    λ tr. returns (Adds-kept tr (record tr { current_depth = tr.current_depth + 1 }) refl refl refl)

module _ (d : Deps) (op : EvmInstructionMetadata) where
  Adding-storage_key : (i : ℕ) → IsAdding (storage_key d op i)
  Adding-storage_key i =
      Adding-bind (deref (get_elem? op.stack_snapshot i)) _ (Adding-deref _)
        (λ w tr. returns (Adds-refl tr))

  Adding-store_slot : (key : Text) (value : ℕ) → IsAdding (store_slot d op key value)
  unfolding store_slot
  Adding-store_slot key value tr = returns (Adds-kept tr _ refl refl refl)

  pub Adding-store_case : IsAdding (store_case d op)
  unfolding store_case
  Adding-store_case = Adding-bind (emit (pop_args 2)) _ (Adding-emit _) λ _.
      Adding-bind (storage_key d op 1) _ (Adding-storage_key 1) λ key.
        Adding-bind (deref (get_elem? op.stack_snapshot 0)) _ (Adding-deref _)
          λ value. Adding-store_slot key value

  Adding-load_slot : (key : Text) → IsAdding (load_slot d op key)
  unfolding load_slot
  Adding-load_slot key tr = returns (Adds-kept tr _ refl refl refl)

  pub Adding-load_case : IsAdding (load_case d op)
  unfolding load_case
  Adding-load_case = Adding-bind (storage_key d op 0) _ (Adding-storage_key 0) λ key.
      Adding-bind (emit (pop_args 1)) _ (Adding-emit _) λ _.
        Adding-bind (load_slot d op key) _ (Adding-load_slot key)
          λ name. Adding-emit (load_from_data_section name)

  Adding-load_call_data :
      (offset : ℕ) (call_data : List ℕ) → IsAdding (load_call_data d op offset call_data)
  unfolding load_call_data
  Adding-load_call_data offset call_data tr =
      elim (Option-cases (calldataload_call d offset call_data tr.data_section)) [
        | inl e ↦ rw (e, load_call_data) panics
        | inr ((ds, is), e) ↦
            rw (e, load_call_data)
              (returns
                (record { code = is; appended = refl; same_mappings = refl; same_config = refl }))
      ]

  pub Adding-calldataload_case :
      (state : Option EvmExecutionState) → IsAdding (calldataload_case d op state)
  unfolding calldataload_case
  Adding-calldataload_case state = Adding-bind (emit (pop_args 1)) _ (Adding-emit _) λ _.
      Adding-bind (deref (get_elem? op.stack_snapshot 0)) _ (Adding-deref _) λ w.
        Adding-bind (deref state) _ (Adding-deref _)
          λ st. Adding-load_call_data (d.uint64 w) st.call_data

  pub Adding-mcopy_case : IsAdding (mcopy_case d op)
  unfolding mcopy_case mcopy_rest
  Adding-mcopy_case = Adding-bind (emit (pop_args 3)) _ (Adding-emit _) λ _.
      Adding-bind (gets (λ tr. tr.config)) _ (λ tr. returns (Adds-refl tr))
        λ config.
          Adding-if config.disable_m_copy_operations _ _ (λ tr. returns (Adds-refl tr))
            (Adding-bind (deref (get_elem? op.stack_snapshot 2)) _ (Adding-deref _) λ a.
              Adding-bind (deref (get_elem? op.stack_snapshot 1)) _ (Adding-deref _) λ b.
                Adding-bind (deref (get_elem? op.stack_snapshot 0)) _ (Adding-deref _)
                  λ c. Adding-emit (mcopy_call (d.uint64 a) (d.uint64 b) (d.uint64 c)))

  Adding-argument : (i : ℕ) → IsAdding (deref (get_elem? op.arguments i))
  Adding-argument i = Adding-deref (get_elem? op.arguments i)

  pub Adding-push_case : (n : ℕ) → IsAdding (push_case d op n)
  unfolding push_case
  Adding-push_case zero = Adding-emit _
  Adding-push_case (suc zero) =
      Adding-bind (deref (get_elem? op.arguments 0)) _ (Adding-argument 0) λ a. Adding-emit _
  Adding-push_case (suc (suc zero)) =
      Adding-bind (deref (get_elem? op.arguments 0)) _ (Adding-argument 0)
        λ a. Adding-bind (deref (get_elem? op.arguments 1)) _ (Adding-argument 1) λ b. Adding-emit _
  Adding-push_case (suc (suc (suc zero))) =
      Adding-bind (deref (get_elem? op.arguments 0)) _ (Adding-argument 0) λ a.
        Adding-bind (deref (get_elem? op.arguments 1)) _ (Adding-argument 1) λ b.
          Adding-bind (deref (get_elem? op.arguments 2)) _ (Adding-argument 2) λ c. Adding-emit _
  Adding-push_case (suc (suc (suc (suc zero)))) =
      Adding-bind (deref (get_elem? op.arguments 0)) _ (Adding-argument 0) λ a.
        Adding-bind (deref (get_elem? op.arguments 1)) _ (Adding-argument 1) λ b.
          Adding-bind (deref (get_elem? op.arguments 2)) _ (Adding-argument 2) λ c.
            Adding-bind (deref (get_elem? op.arguments 3)) _ (Adding-argument 3) λ e. Adding-emit _
  Adding-push_case (suc (suc (suc (suc (suc n))))) =
      Adding-if (ltb n 28) _ _ (Adding-load_value d (d.set_bytes op.arguments)) (Adding-raise _)
