-- ===== src/Transpiler/Mappings/Switched.antt =====
-- The switch of `AddInstructionWithResult` (transpiler/transpiler.go): behind it the code of the item is
-- appended, or the method has returned and has stored the mapping of that code.
use erigon_risc_v_executable.Prelude.{
  ℕ, ◌+◌, ◌≡◌, refl, List, [], ◌∷◌, Option, Bool, true, false, length, pos, ltb, leb, ◌&&◌, ◌++◌,
  append_assoc, if◌then◌else◌,
}
use erigon_risc_v_executable.Opcode.{
  Opcode, add, mul, sub, div, sdiv, mod_, smod, addmod, mulmod, exp, signextend, and, or, xor, eq,
  slt, shr, shl, gt, sgt, lt, not, byte, sar, push, dup, swap, log, jump, jumpi, pop, mstore, mload,
  jumpdest, iszero, callvalue, gas, address, balance, origin, timestamp, chainid, coinbase,
  blockhash, number, difficulty, gaslimit, selfbalance, basefee, blobhash, blobbasefee, gasprice,
  codesize, pc, msize, mstore8, extcodecopy, extcodehash, create, create2, selfdestruct,
  extcodesize, calldatasize, returndatasize, calldataload, calldatacopy, codecopy, returndatacopy,
  sstore, tstore, sload, tload, stop, return_, revert, invalid, caller, keccak256, mcopy, call,
  delegatecall, staticcall, callcode, other,
}
use erigon_risc_v_executable.Assembly.{Instruction}
use erigon_risc_v_executable.Deps.{Deps}
use erigon_risc_v_executable.Emit.{
  nop_instr, push_opcode, dup_opcode, swap_opcode, add256_call, mul256_call, sub256_call,
  div256_call, and256_call, or256_call, xor256_call, not256_call, shr256_call, shl256_call,
  slt256_call, eq256_call, gt256_call, lt256_call,
}
use erigon_risc_v_executable.Trace.{EvmExecutionState, EvmInstructionMetadata}
use erigon_risc_v_executable.Transpiler.{Transpiler}
use erigon_risc_v_executable.Transpiler.Effects.{
  M, Error, raise, emit, emit_host, pop_args, deref, load_value, store_debug_info, ◌>>=◌, ◌>>◌,
  pure, host_optimized_opcode,
}
use erigon_risc_v_executable.Transpiler.Switch.{
  Flow, break_switch, returned, then_break, leave_frame, return_code, nested_ebreak,
  switch_arithmetic,
}
use erigon_risc_v_executable.Transpiler.Mappings.Adding.{
  IsAdding, After, returns, fails, Adds, Adds-refl, Adds-trans, After-bind, Adding-bind,
  Adding-emit, Adding-emit_config, Adding-deref, Adding-load_value, Adding-emit_result,
}
use erigon_risc_v_executable.Transpiler.Mappings.Case.{
  Adding-enter_frame, Adding-store_case, Adding-load_case, Adding-calldataload_case,
  Adding-mcopy_case, Adding-push_case,
}
use erigon_risc_v_executable.Transpiler.Mappings.Recorded.{Records, Records-refl, stored-Records}

abbrev pub Switched : Transpiler → Flow → Transpiler → Type 0
Switched tr break_switch t = Adds tr t
Switched tr returned t = Records tr t

Switched-then_break :
    (m : M (Unit {0})) (tr : Transpiler) → IsAdding m → After (Switched tr) (then_break m tr)
Switched-then_break m tr h = After-bind (m tr) (λ _. pure break_switch) (h tr) (λ a t x. returns x)

Switched-guarded :
    (b : Bool) (m : M (Unit {0})) (e : Error) (tr : Transpiler)
    → IsAdding m
    → After (Switched tr) ((if b then then_break m else raise e) tr)
Switched-guarded true m e tr h = Switched-then_break m tr h
Switched-guarded false m e tr h = fails

Adding-emit_host : (code : List Instruction) (n : ℕ) → IsAdding (emit_host code n)
Adding-emit_host code n = Adding-emit_config (λ config. host_optimized_opcode config code n)

module _ (d : Deps) (op : EvmInstructionMetadata) (state : Option EvmExecutionState)
    (result_stack : Option (List ℕ)) where
  Adding-state : (f : EvmExecutionState → ℕ) → IsAdding (do st ← deref state; load_value d (f st))
  Adding-state f = Adding-bind (deref state) _ (Adding-deref state) λ st. Adding-load_value d (f st)

  Adding-read :
      (f : EvmExecutionState → Option ℕ)
      → IsAdding (do st ← deref state; v ← deref (f st); load_value d v)
  Adding-read f =
      Adding-bind (deref state) _ (Adding-deref state)
        λ st. Adding-bind (deref (f st)) _ (Adding-deref (f st)) λ v. Adding-load_value d v

  module _ (tr : Transpiler) (enabled : tr.config.disable_debug_mappings ≡ false) where
    abbrev left : Opcode → M Flow
    left c = leave_frame d (length tr.instructions) c

    leave_frame-Records : (c : Opcode) (t : Transpiler) → Adds tr t → After (Switched tr) (left c t)
    unfolding leave_frame store_debug_info
    leave_frame-Records c t x =
        let last = record t {
          instructions = (t.instructions ++ return_code t.config) ++ nested_ebreak t.current_depth;
        } in
        returns (
          stored-Records tr last (d.op_string c) enabled (
            Adds-trans x (record {
              code = return_code t.config ++ nested_ebreak t.current_depth;
              appended = append_assoc t.instructions _ _;
              same_mappings = refl;
              same_config = refl;
            })))

    Switched-leave : (n : ℕ) (c : Opcode) → After (Switched tr) ((do emit (pop_args n); left c) tr)
    Switched-leave n c =
        After-bind (emit (pop_args n) tr) (λ _. left c) (Adding-emit (pop_args n) tr)
          (λ _ t x. leave_frame-Records c t x)

    pub switch-Switched :
        (c : Opcode)
        → After
            (Switched tr)
            (switch_arithmetic d op state result_stack (length tr.instructions) c tr)
    unfolding switch_arithmetic
    switch-Switched sstore = Switched-then_break _ tr (Adding-store_case d op)
    switch-Switched tstore = Switched-then_break _ tr (Adding-store_case d op)
    switch-Switched sload = Switched-then_break _ tr (Adding-load_case d op)
    switch-Switched tload = Switched-then_break _ tr (Adding-load_case d op)
    switch-Switched stop = returns (Records-refl tr)
    switch-Switched return_ = Switched-leave 2 return_
    switch-Switched revert = Switched-leave 2 revert
    switch-Switched invalid = leave_frame-Records invalid tr (Adds-refl tr)
    switch-Switched caller = Switched-then_break _ tr (Adding-state (λ st. d.set_bytes st.caller))
    switch-Switched keccak256 =
        Switched-then_break _ tr (Adding-emit_result d result_stack 2 "KECCAK256")
    switch-Switched mcopy = Switched-then_break _ tr (Adding-mcopy_case d op)
    switch-Switched call =
        Switched-then_break _ tr
          (Adding-bind (emit (pop_args 7)) _ (Adding-emit _) λ _. Adding-enter_frame)
    switch-Switched delegatecall =
        Switched-then_break _ tr
          (Adding-bind (emit (pop_args 6)) _ (Adding-emit _) λ _. Adding-enter_frame)
    switch-Switched staticcall =
        Switched-then_break _ tr
          (Adding-bind (emit (pop_args 6)) _ (Adding-emit _) λ _. Adding-enter_frame)
    switch-Switched callcode =
        Switched-then_break _ tr
          (Adding-bind (emit (pop_args 7)) _ (Adding-emit _) λ _. Adding-enter_frame)
    switch-Switched mstore8 = Switched-then_break _ tr (Adding-emit (pop_args 2))
    switch-Switched extcodecopy = Switched-then_break _ tr (Adding-emit (pop_args 4))
    switch-Switched extcodehash =
        Switched-then_break _ tr (Adding-emit_result d result_stack 1 "EXTCODEHASH")
    switch-Switched create = Switched-then_break _ tr (Adding-emit_result d result_stack 3 "CREATE")
    switch-Switched create2 =
        Switched-then_break _ tr (Adding-emit_result d result_stack 4 "CREATE2")
    switch-Switched selfdestruct = Switched-then_break _ tr (Adding-emit (pop_args 1))
    switch-Switched extcodesize =
        Switched-then_break _ tr (Adding-emit_result d result_stack 1 "EXTCODESIZE")
    switch-Switched (log n) = Switched-guarded (ltb n 5) _ _ tr (Adding-emit (pop_args (n + 2)))
    switch-Switched calldatasize =
        Switched-then_break _ tr (Adding-state (λ st. length st.call_data))
    switch-Switched returndatasize =
        Switched-then_break _ tr (Adding-emit_result d result_stack 0 "RETURNDATASIZE")
    switch-Switched calldataload = Switched-then_break _ tr (Adding-calldataload_case d op state)
    switch-Switched calldatacopy = Switched-then_break _ tr (Adding-emit (pop_args 3))
    switch-Switched codecopy = Switched-then_break _ tr (Adding-emit (pop_args 3))
    switch-Switched returndatacopy = Switched-then_break _ tr (Adding-emit (pop_args 3))
    switch-Switched jump = Switched-then_break _ tr (Adding-emit (pop_args 1))
    switch-Switched jumpi = Switched-then_break _ tr (Adding-emit (pop_args 2))
    switch-Switched pop = Switched-then_break _ tr (Adding-emit (pop_args 1))
    switch-Switched mstore = Switched-then_break _ tr (Adding-emit (pop_args 2))
    switch-Switched mload = Switched-then_break _ tr (Adding-emit_result d result_stack 1 "MLOAD")
    switch-Switched jumpdest = Switched-then_break _ tr (Adding-emit (nop_instr ∷ []))
    switch-Switched iszero = Switched-then_break _ tr (
        Adding-bind (emit (push_opcode (pos 0))) _ (Adding-emit _)
          λ _. Adding-emit_host eq256_call 2)
    switch-Switched callvalue = Switched-then_break _ tr (Adding-read (λ st. st.call_value))
    switch-Switched gas = Switched-then_break _ tr (Adding-read (λ st. st.gas))
    switch-Switched address = Switched-then_break _ tr (Adding-state (λ st. d.set_bytes st.address))
    switch-Switched balance =
        Switched-then_break _ tr (Adding-emit_result d result_stack 1 "BALANCE")
    switch-Switched origin = Switched-then_break _ tr (Adding-state (λ st. d.set_bytes st.origin))
    switch-Switched timestamp = Switched-then_break _ tr (Adding-read (λ st. st.timestamp))
    switch-Switched chainid = Switched-then_break _ tr (Adding-read (λ st. st.chain_id))
    switch-Switched coinbase =
        Switched-then_break _ tr (Adding-state (λ st. d.set_bytes st.coinbase))
    switch-Switched blockhash =
        Switched-then_break _ tr (Adding-emit_result d result_stack 1 "BLOCKHASH")
    switch-Switched number = Switched-then_break _ tr (Adding-read (λ st. st.block_number))
    switch-Switched difficulty =
        Switched-then_break _ tr (Adding-emit_result d result_stack 1 "DIFFICULTY")
    switch-Switched gaslimit =
        Switched-then_break _ tr (Adding-emit_result d result_stack 1 "GASLIMIT")
    switch-Switched selfbalance =
        Switched-then_break _ tr (Adding-emit_result d result_stack 0 "SELFBALANCE")
    switch-Switched basefee =
        Switched-then_break _ tr (Adding-emit_result d result_stack 1 "BASEFEE")
    switch-Switched blobhash =
        Switched-then_break _ tr (Adding-emit_result d result_stack 1 "BLOBHASH")
    switch-Switched blobbasefee =
        Switched-then_break _ tr (Adding-emit_result d result_stack 0 "BLOBBASEFEE")
    switch-Switched gasprice =
        Switched-then_break _ tr (Adding-emit_result d result_stack 0 "GASPRICE")
    switch-Switched codesize = Switched-then_break _ tr (Adding-state (λ st. length st.code_data))
    switch-Switched pc = Switched-then_break _ tr (Adding-emit_result d result_stack 0 "PC")
    switch-Switched msize = Switched-then_break _ tr (Adding-emit_result d result_stack 0 "MSIZE")
    switch-Switched (push n) = Switched-then_break _ tr (Adding-push_case d op n)
    switch-Switched (dup n) =
        Switched-guarded (leb 1 n && leb n 16) _ _ tr (Adding-emit (dup_opcode n))
    switch-Switched (swap n) =
        Switched-guarded (leb 1 n && leb n 16) _ _ tr (Adding-emit (swap_opcode n))
    switch-Switched add = Switched-then_break _ tr (Adding-emit_host add256_call 2)
    switch-Switched mul = Switched-then_break _ tr (Adding-emit_host mul256_call 2)
    switch-Switched sub = Switched-then_break _ tr (Adding-emit_host sub256_call 2)
    switch-Switched div = Switched-then_break _ tr (Adding-emit_host div256_call 2)
    switch-Switched sdiv = Switched-then_break _ tr (Adding-emit_result d result_stack 2 "SDIV")
    switch-Switched mod_ = Switched-then_break _ tr (Adding-emit_result d result_stack 2 "MOD")
    switch-Switched smod = Switched-then_break _ tr (Adding-emit_result d result_stack 2 "SMOD")
    switch-Switched addmod = Switched-then_break _ tr (Adding-emit_result d result_stack 3 "ADDMOD")
    switch-Switched mulmod = Switched-then_break _ tr (Adding-emit_result d result_stack 3 "MULMOD")
    switch-Switched exp = Switched-then_break _ tr (Adding-emit_result d result_stack 2 "EXP")
    switch-Switched signextend =
        Switched-then_break _ tr (Adding-emit_result d result_stack 2 "SIGNEXTEND")
    switch-Switched and = Switched-then_break _ tr (Adding-emit_host and256_call 2)
    switch-Switched or = Switched-then_break _ tr (Adding-emit_host or256_call 2)
    switch-Switched xor = Switched-then_break _ tr (Adding-emit_host xor256_call 2)
    switch-Switched eq = Switched-then_break _ tr (Adding-emit_host eq256_call 2)
    switch-Switched slt = Switched-then_break _ tr (Adding-emit_host slt256_call 2)
    switch-Switched shr = Switched-then_break _ tr (Adding-emit_host shr256_call 2)
    switch-Switched shl = Switched-then_break _ tr (Adding-emit_host shl256_call 2)
    switch-Switched gt = Switched-then_break _ tr (Adding-emit_host gt256_call 2)
    switch-Switched sgt = Switched-then_break _ tr (Adding-emit_result d result_stack 2 "SGT")
    switch-Switched lt = Switched-then_break _ tr (Adding-emit_host lt256_call 2)
    switch-Switched not = Switched-then_break _ tr (Adding-emit_host not256_call 1)
    switch-Switched byte = Switched-then_break _ tr (Adding-emit_result d result_stack 2 "BYTE")
    switch-Switched sar = Switched-then_break _ tr (Adding-emit_result d result_stack 2 "SAR")
    switch-Switched (other n) = fails
