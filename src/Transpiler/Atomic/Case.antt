-- ===== src/Transpiler/Atomic/Case.antt =====
-- The error paths of the longer cases of the switch (transpiler/transpiler.go).
use erigon_risc_v_executable.Prelude.{
  ℕ, suc, zero, ◌≡◌, List, Option, none, some, Bool, true, false, Text, String, ltb, if◌then◌else◌,
  Option-cases, inl, inr, last?, get_elem?, arith,
}
use erigon_risc_v_executable.Deps.{Deps}
use erigon_risc_v_executable.Emit.{mcopy_call}
use erigon_risc_v_executable.Trace.{EvmExecutionState, EvmInstructionMetadata}
use erigon_risc_v_executable.Transpiler.{Transpiler}
use erigon_risc_v_executable.Transpiler.Effects.{
  M, emit, gets, pop_args, Error, err, deref, pure, load_value, emit_result, result_from_trace_call,
}
use erigon_risc_v_executable.Transpiler.Switch.{
  then_break, storage_key, store_case, load_case, calldataload_case, load_call_data, mcopy_case,
  mcopy_rest, push_case, store_slot, load_slot,
}
use erigon_risc_v_executable.Transpiler.Atomic.Unfailing.{
  ok-err, err-same, IsSafe, Safe-bind, Safe-deref, deref_unfailing, Safe-modify, Safe-emit,
  break_unfailing, guarded_break,
}

module _ (d : Deps) (op : EvmInstructionMetadata) (state : Option EvmExecutionState)
    (result_stack : Option (List ℕ)) (start : ℕ) where
  pub Safe-load_value : (v : ℕ) → IsSafe (load_value d v)
  unfolding load_value
  Safe-load_value v tr t e h = ok-err h

  pub key_unfailing : (i : ℕ) → IsSafe (storage_key d op i)
  key_unfailing i = Safe-deref (get_elem? op.stack_snapshot i) _ (λ w _ _ _ h. ok-err h)

  pub Safe-store_slot : (key : Text) (v : ℕ) → IsSafe (store_slot d op key v)
  unfolding store_slot
  Safe-store_slot key v tr t e h = ok-err h

  pub Safe-store_case : IsSafe (store_case d op)
  unfolding store_case store_slot
  Safe-store_case = Safe-bind (emit (pop_args 2)) _ (Safe-modify _) λ _.
      Safe-bind _ _ (key_unfailing 1) λ key.
        Safe-bind (deref (get_elem? op.stack_snapshot 0)) _ (deref_unfailing _)
          λ value. Safe-store_slot key value

  pub Safe-load_case : IsSafe (load_case d op)
  unfolding load_case load_slot
  Safe-load_case = Safe-bind _ _ (key_unfailing 0) (λ key _ _ _ h. ok-err h)

  pub Safe-load_call_data :
      (offset : ℕ) (bytes : List ℕ) → IsSafe (load_call_data d op offset bytes)
  unfolding load_call_data
  Safe-load_call_data offset bytes tr t e h = ground arith

  pub Safe-calldataload_case : IsSafe (calldataload_case d op state)
  unfolding calldataload_case
  Safe-calldataload_case = Safe-bind (emit (pop_args 1)) _ (Safe-modify _) λ _.
      Safe-deref (get_elem? op.stack_snapshot 0) _
        λ w. Safe-deref state _ (λ st. Safe-load_call_data (d.uint64 w) st.call_data)

  pub Safe-copies : (b : Bool) (m : M (Unit {0})) → IsSafe m → IsSafe (if b then pure tt else m)
  Safe-copies true m hm = λ _ _ _ h. ok-err h
  Safe-copies false m hm = hm

  pub Safe-mcopy_case : IsSafe (mcopy_case d op)
  unfolding mcopy_case mcopy_rest
  Safe-mcopy_case = Safe-bind (emit (pop_args 3)) _ (Safe-modify _) λ _.
      Safe-bind (gets (λ tr. tr.config)) _ (λ _ _ _ h. ok-err h)
        λ config. Safe-copies config.disable_m_copy_operations _ (
          Safe-deref (get_elem? op.stack_snapshot 2) _ λ a.
            Safe-deref (get_elem? op.stack_snapshot 1) _ λ b.
              Safe-bind (deref (get_elem? op.stack_snapshot 0)) _ (deref_unfailing _)
                λ c. Safe-emit (mcopy_call (d.uint64 a) (d.uint64 b) (d.uint64 c)))

  pub no_result :
      (rs : Option (List ℕ)) (n : ℕ) (name : String) (tr : Transpiler) {tr' : Transpiler}
      {e : Error}
      → then_break (emit_result d rs n name) tr ≡ err e tr'
      → tr' ≡ tr
  unfolding emit_result result_from_trace_call
  no_result none n name tr h = err-same h
  no_result (some a) n name tr h = elim (Option-cases (last? a)) [
    | inl e ↦ err-same (rw (e, then_break, emit_result, result_from_trace_call) at h)
    | inr (v, e) ↦ absurd (ok-err (rw (e, then_break, emit_result, result_from_trace_call) at h))
  ]

  pub argument : (i : ℕ) → IsSafe (deref (get_elem? op.arguments i))
  argument i = deref_unfailing (get_elem? op.arguments i)

  pub push_atomic :
      (n : ℕ) (tr : Transpiler) {tr' : Transpiler} {e : Error}
      → then_break (push_case d op n) tr ≡ err e tr'
      → tr' ≡ tr
  unfolding push_case
  push_atomic zero tr h = absurd (ok-err h)
  push_atomic (suc zero) tr h =
      absurd (break_unfailing _ (Safe-bind _ _ (argument 0) λ a. Safe-modify _) tr _ _ h)
  push_atomic (suc (suc zero)) tr h = absurd (
      break_unfailing _
        (Safe-bind _ _ (argument 0) λ a. Safe-bind _ _ (argument 1) λ b. Safe-modify _) tr _ _ h)
  push_atomic (suc (suc (suc zero))) tr h = absurd (
      break_unfailing _
        (Safe-bind _ _ (argument 0)
          λ a. Safe-bind _ _ (argument 1) λ b. Safe-bind _ _ (argument 2) λ c. Safe-modify _)
        tr _ _ h)
  push_atomic (suc (suc (suc (suc zero)))) tr h = absurd (
      break_unfailing _
        (Safe-bind _ _ (argument 0) λ a.
          Safe-bind _ _ (argument 1)
            λ b. Safe-bind _ _ (argument 2) λ c. Safe-bind _ _ (argument 3) λ d'. Safe-modify _)
        tr _ _ h)
  push_atomic (suc (suc (suc (suc (suc n))))) tr h =
      guarded_break (ltb n 28) _ _ (Safe-load_value (d.set_bytes op.arguments)) tr h
