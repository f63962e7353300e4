-- ===== src/Transpiler/Cases.antt =====
-- The longer cases of the switch (transpiler/transpiler.go) in the configuration of the commands.
use erigon_risc_v_executable.Prelude.{
  append-nil, ℤ, fun_ext, ◌^◌, ℕ, zero, suc, ◌+◌, ◌*◌, ◌≤◌, ◌<◌, ◌≡◌, refl, sym, ap, ◌∙◌, List, [],
  ◌∷◌, Option, some, ltb, Bool-cases, inl, inr, Text, length, get_elem?, pos, int32, lt→ltb, arith,
}
use erigon_risc_v_executable.Opcode.{Opcode}
use erigon_risc_v_executable.Deps.{Deps}
use erigon_risc_v_executable.Trace.{EvmExecutionState, EvmInstructionMetadata}
use erigon_risc_v_executable.Sections.{load}
use erigon_risc_v_executable.Sections.Storage.{store-Stored, load-Stored}
use erigon_risc_v_executable.Emit.{push_opcode, load_from_data_section}
use erigon_risc_v_executable.Emit.Copy.Window.{window_lem}
use erigon_risc_v_executable.Machine.Balance.{
  Balanced-nil, Balanced-ebreak, Balanced-push_opcode, Balanced-load_from_data_section,
}
use erigon_risc_v_executable.Transpiler.Effects.{
  M, deref, modify, ◌>>=◌, emit, pop_args, load_value,
}
use erigon_risc_v_executable.Transpiler.Switch.{
  returned, call_code, return_code, nested_ebreak, mcopy_rest, store_slot, load_slot,
  load_call_data, leave_frame, enter_frame, store_case, load_case, calldataload_case, mcopy_case,
  push_case,
}
use erigon_risc_v_executable.Transpiler.Does.{
  Does, Does-bind, Does-pure, Does-modify, Does-emit, Does-store_debug_info, Balanced-pop_args,
  Does-emit_config, Does-config, Does-depth, Does-load_value,
}

pub get_elem?-of_lt {ℓ} :
    {A : Type ℓ} (xs : List A) (i : ℕ) → i < length xs → (a : A) × (get_elem? xs i ≡ some a)
get_elem?-of_lt [] i h = absurd (omega arith)
get_elem?-of_lt (x ∷ xs) zero h = (x, refl)
get_elem?-of_lt (x ∷ xs) (suc i) h = get_elem?-of_lt xs i (omega arith)

module _ (d : Deps) where
  pub Does-deref {ℓ κ} :
      {A : Type ℓ} {B : Type κ} {a b : ℕ} (o : Option A) {x : A} (f : A → M B)
      → o ≡ some x
      → Does d (f x) a b
      → Does d (deref o >>= f) a b
  Does-deref o f e h = rw e h

  Does-deeper : Does d (modify λ tr. record tr { current_depth = tr.current_depth + 1 }) 0 0
  Does-deeper =
      Does-modify d (λ tr. record tr { current_depth = tr.current_depth + 1 })
        (λ tr. (refl, refl, refl, refl))

  pub Does-enter_frame : Does d enter_frame 0 0
  unfolding enter_frame
  Does-enter_frame =
      Does-bind d _ _ (Does-emit_config d call_code (λ l. Balanced-nil l)) (λ _. Does-deeper)

  Does-nested_ebreak : (depth : ℕ) → Does d (emit (nested_ebreak depth)) 0 0
  unfolding nested_ebreak
  Does-nested_ebreak depth = elim (Bool-cases (ltb 0 depth)) [
    | inl e ↦ rw e (Does-emit d (λ l. Balanced-ebreak l))
    | inr e ↦ rw e (Does-emit d (λ l. Balanced-nil l))
  ]

  pub Does-leave_frame : (start : ℕ) (op : Opcode) → Does d (leave_frame d start op) 0 0
  unfolding leave_frame
  Does-leave_frame start op =
      Does-bind d _ _ (Does-emit_config d return_code (λ l. Balanced-nil l)) λ _.
        Does-depth d _ λ depth. Does-bind d _ _ (Does-nested_ebreak depth) λ _.
          Does-bind d _ _ (Does-store_debug_info d start (d.op_string op)) λ _. Does-pure d returned

  pub Does-pops : (n : ℕ) → Does d (emit (pop_args n)) n 0
  Does-pops n = Does-emit d (λ l. Balanced-pop_args d l n)

  module _ (op : EvmInstructionMetadata) where
    pub Does-mcopy_case : Does d (mcopy_case d op) 3 0
    unfolding mcopy_case
    Does-mcopy_case =
        Does-bind d _ _ (Does-pops 3) (λ _. Does-config d (mcopy_rest d op) (Does-pure d tt))

    Does-store_slot : (key : Text) (v : ℕ) → Does d (store_slot d op key v) 0 0
    unfolding store_slot
    Does-store_slot key v = record {
      at = λ tr prod inv.
          let s = store-Stored d key v tr.storage_section tr.data_section inv.indexed inv.stored in
          (
            tt,
            _,
            refl,
            record {
              code = [];
              appended = sym (append-nil tr.instructions);
              same_config = refl;
              well_formed = record { indexed = s.indexed; stored = s.stored };
              grown = s.grown;
              balanced = λ l cover. Balanced-nil l;
            },
          );
    }

    load_slot_loaded :
        (key : Text)
        → Does d (load_slot d op key >>= λ name. emit (load_from_data_section name)) 0 1
    unfolding load_slot
    load_slot_loaded key = record {
      at = λ tr prod inv.
          let s = load-Stored d key tr.storage_section tr.data_section inv.indexed inv.stored in
          (
            tt,
            _,
            refl,
            record {
              code = load_from_data_section (load d key tr.storage_section tr.data_section).2;
              appended = refl;
              same_config = refl;
              well_formed = record { indexed = s.indexed; stored = s.stored };
              grown = s.grown;
              balanced = λ l cover.
                  let (a, placed) = cover s.index s.below in
                  Balanced-load_from_data_section l _ (ap l.labels s.named ∙ placed);
            },
          );
    }

    pub Does-store_case : 2 ≤ length op.stack_snapshot → Does d (store_case d op) 2 0
    unfolding store_case
    Does-store_case h =
        let (k, ek) = get_elem?-of_lt op.stack_snapshot 1 h in
        let (v, ev) = get_elem?-of_lt op.stack_snapshot 0 (omega arith) in
        rw (ek, ev) (Does-bind d _ _ (Does-pops 2) λ _. Does-store_slot (d.hex k) v)

    pub Does-load_case : 1 ≤ length op.stack_snapshot → Does d (load_case d op) 1 1
    unfolding load_case
    Does-load_case h =
        let (k, ek) = get_elem?-of_lt op.stack_snapshot 0 h in
        rw ek (Does-bind d _ _ (Does-pops 1) λ _. load_slot_loaded (d.hex k))

    load_call_data-eq :
        (offset : ℕ) (call_data : List ℕ)
        → length call_data + 32 < 2 ^ 64
        → (v : ℕ) × (load_call_data d op offset call_data ≡ load_value d v)
    unfolding load_call_data load_value
    load_call_data-eq offset call_data fits =
        let (bytes, e, _, _) = window_lem 32 call_data offset fits in
        (d.set_bytes bytes, fun_ext λ tr. rw (e, load_call_data) refl)

    pub Does-calldataload_case :
        (st : EvmExecutionState)
        → length st.call_data + 32 < 2 ^ 64
        → 1 ≤ length op.stack_snapshot
        → Does d (calldataload_case d op (some st)) 1 1
    unfolding calldataload_case
    Does-calldataload_case st fits h =
        let (k, ek) = get_elem?-of_lt op.stack_snapshot 0 h in
        let (v, ev) = load_call_data-eq (d.uint64 k) st.call_data fits in
        rw (ek, ev) (Does-bind d _ _ (Does-pops 1) λ _. Does-load_value d v)

    Does-push : (z : ℤ) → Does d (emit (push_opcode z)) 0 1
    Does-push z = Does-emit d (λ l. Balanced-push_opcode l z)

    pub Does-push_case : (n : ℕ) → n ≤ 32 → n ≤ length op.arguments → Does d (push_case d op n) 0 1
    unfolding push_case
    Does-push_case zero small h = Does-push (pos 0)
    Does-push_case (suc zero) small h =
        let (a, ea) = get_elem?-of_lt op.arguments 0 h in rw ea (Does-push (int32 a))
    Does-push_case (suc (suc zero)) small h =
        let (a, ea) = get_elem?-of_lt op.arguments 0 (omega arith) in
        let (b, eb) = get_elem?-of_lt op.arguments 1 (omega arith) in
        rw (ea, eb) (Does-push (int32 (a * 256 + b)))
    Does-push_case (suc (suc (suc zero))) small h =
        let (a, ea) = get_elem?-of_lt op.arguments 0 (omega arith) in
        let (b, eb) = get_elem?-of_lt op.arguments 1 (omega arith) in
        let (c, ec) = get_elem?-of_lt op.arguments 2 (omega arith) in
        rw (ea, eb, ec) (Does-push (int32 (a * 65536 + b * 256 + c)))
    Does-push_case (suc (suc (suc (suc zero)))) small h =
        let (a, ea) = get_elem?-of_lt op.arguments 0 (omega arith) in
        let (b, eb) = get_elem?-of_lt op.arguments 1 (omega arith) in
        let (c, ec) = get_elem?-of_lt op.arguments 2 (omega arith) in
        let (e, ee) = get_elem?-of_lt op.arguments 3 (omega arith) in
        rw (ea, eb, ec, ee) (Does-push (int32 (a * 16777216 + b * 65536 + c * 256 + e)))
    Does-push_case (suc (suc (suc (suc (suc n))))) small h =
        rw (lt→ltb n 28 (omega arith)) (Does-load_value d (d.set_bytes op.arguments))
