-- ===== src/Transpiler/Atomic.antt =====
-- The error paths of `AddInstructionWithResult` and `ProcessExecution` (transpiler/transpiler.go).
pub mod Unfailing
pub mod Case
use erigon_risc_v_executable.Prelude.{
  ℕ, suc, zero, ◌≡◌, refl, List, Option, none, some, Bool, true, false, Text, String, ltb, leb,
  ◌&&◌, if◌then◌else◌, Option-cases, inl, inr, last?, get_elem?, arith,
}
use erigon_risc_v_executable.Opcode.{
  Opcode, add, mul, sub, div, sdiv, mod_, smod, addmod, mulmod, exp, signextend, and, or, xor, eq,
  slt, shr, shl, gt, sgt, lt, not, byte, sar, push, dup, swap, log, jump, jumpi, pop, mstore, mload,
  jumpdest, iszero, callvalue, gas, address, balance, origin, timestamp, chainid, coinbase,
  blockhash, number, difficulty, gaslimit, selfbalance, basefee, blobhash, blobbasefee, gasprice,
  codesize, pc, msize, mstore8, extcodecopy, extcodehash, create, create2, selfdestruct,
  extcodesize, calldatasize, returndatasize, calldataload, calldatacopy, codecopy, returndatacopy,
  sstore, tstore, sload, tload, stop, return_, revert, invalid, caller, keccak256, mcopy, call,
  delegatecall, staticcall, callcode, other,
}
use erigon_risc_v_executable.Deps.{Deps}
use erigon_risc_v_executable.Assembly.{Instruction}
use erigon_risc_v_executable.Emit.{mcopy_call}
use erigon_risc_v_executable.Trace.{EvmExecutionState, EvmInstructionMetadata}
use erigon_risc_v_executable.Transpiler.{Transpiler}
use erigon_risc_v_executable.Transpiler.Effects.{
  M, emit, modify, gets, pop_args, raise, Error, Outcome, ok, err, panic, continue, ◌>>=◌, deref,
  pure, load_value, emit_result, result_from_trace_call,
}
use erigon_risc_v_executable.Transpiler.Switch.{
  Flow, then_break, storage_key, store_case, load_case, calldataload_case, load_call_data,
  mcopy_case, mcopy_rest, push_case, store_slot, load_slot, switch_arithmetic,
}
use erigon_risc_v_executable.Transpiler.Atomic.Unfailing.{
  ok-err, err-same, Safe-bind, Safe-deref, deref_unfailing, Safe-modify, Safe-emit, break_unfailing,
  guarded, guarded_break,
}
use erigon_risc_v_executable.Transpiler.Atomic.Case.{
  Safe-load_value, Safe-store_case, Safe-load_case, Safe-calldataload_case, Safe-mcopy_case,
  no_result, push_atomic,
}

module _ (d : Deps) (op : EvmInstructionMetadata) (state : Option EvmExecutionState)
    (result_stack : Option (List ℕ)) (start : ℕ) where
  traced :
      (n : ℕ) (name : String) (tr : Transpiler) {tr' : Transpiler} {e : Error}
      → then_break (emit_result d result_stack n name) tr ≡ err e tr'
      → tr' ≡ tr
  unfolding emit_result
  traced n name tr h = (no_result d op state result_stack start) result_stack n name tr h

  pub switch-atomic :
      (c : Opcode) (tr : Transpiler) {tr' : Transpiler} {e : Error}
      → switch_arithmetic d op state result_stack start c tr ≡ err e tr'
      → tr' ≡ tr
  unfolding switch_arithmetic
  switch-atomic add tr h = absurd (ok-err h)
  switch-atomic mul tr h = absurd (ok-err h)
  switch-atomic sub tr h = absurd (ok-err h)
  switch-atomic div tr h = absurd (ok-err h)
  switch-atomic sdiv tr h = traced 2 "SDIV" tr h
  switch-atomic mod_ tr h = traced 2 "MOD" tr h
  switch-atomic smod tr h = traced 2 "SMOD" tr h
  switch-atomic addmod tr h = traced 3 "ADDMOD" tr h
  switch-atomic mulmod tr h = traced 3 "MULMOD" tr h
  switch-atomic exp tr h = traced 2 "EXP" tr h
  switch-atomic signextend tr h = traced 2 "SIGNEXTEND" tr h
  switch-atomic and tr h = absurd (ok-err h)
  switch-atomic or tr h = absurd (ok-err h)
  switch-atomic xor tr h = absurd (ok-err h)
  switch-atomic eq tr h = absurd (ok-err h)
  switch-atomic slt tr h = absurd (ok-err h)
  switch-atomic shr tr h = absurd (ok-err h)
  switch-atomic shl tr h = absurd (ok-err h)
  switch-atomic gt tr h = absurd (ok-err h)
  switch-atomic sgt tr h = traced 2 "SGT" tr h
  switch-atomic lt tr h = absurd (ok-err h)
  switch-atomic not tr h = absurd (ok-err h)
  switch-atomic byte tr h = traced 2 "BYTE" tr h
  switch-atomic sar tr h = traced 2 "SAR" tr h
  switch-atomic (push n) tr h = (push_atomic d op state result_stack start) n tr h
  switch-atomic (dup n) tr h = guarded (leb 1 n && leb n 16) _ _ (λ _ _ _ h. ok-err h) tr h
  switch-atomic (swap n) tr h = guarded (leb 1 n && leb n 16) _ _ (λ _ _ _ h. ok-err h) tr h
  switch-atomic (log n) tr h = guarded (ltb n 5) _ _ (λ _ _ _ h. ok-err h) tr h
  switch-atomic jump tr h = absurd (ok-err h)
  switch-atomic jumpi tr h = absurd (ok-err h)
  switch-atomic pop tr h = absurd (ok-err h)
  switch-atomic mstore tr h = absurd (ok-err h)
  switch-atomic mload tr h = traced 1 "MLOAD" tr h
  switch-atomic jumpdest tr h = absurd (ok-err h)
  switch-atomic iszero tr h = absurd (ok-err h)
  switch-atomic callvalue tr h = absurd (
      break_unfailing _
        (Safe-deref state _
          (λ st. Safe-deref st.call_value _ ((Safe-load_value d op state result_stack start))))
        tr _ _ h)
  switch-atomic gas tr h = absurd (
      break_unfailing _
        (Safe-deref state _
          (λ st. Safe-deref st.gas _ ((Safe-load_value d op state result_stack start))))
        tr _ _ h)
  switch-atomic address tr h = absurd (
      break_unfailing _
        (Safe-deref state _ (λ st. (Safe-load_value d op state result_stack start) _)) tr _ _ h)
  switch-atomic balance tr h = traced 1 "BALANCE" tr h
  switch-atomic origin tr h = absurd (
      break_unfailing _
        (Safe-deref state _ (λ st. (Safe-load_value d op state result_stack start) _)) tr _ _ h)
  switch-atomic timestamp tr h = absurd (
      break_unfailing _
        (Safe-deref state _
          (λ st. Safe-deref st.timestamp _ ((Safe-load_value d op state result_stack start))))
        tr _ _ h)
  switch-atomic chainid tr h = absurd (
      break_unfailing _
        (Safe-deref state _
          (λ st. Safe-deref st.chain_id _ ((Safe-load_value d op state result_stack start))))
        tr _ _ h)
  switch-atomic coinbase tr h = absurd (
      break_unfailing _
        (Safe-deref state _ (λ st. (Safe-load_value d op state result_stack start) _)) tr _ _ h)
  switch-atomic blockhash tr h = traced 1 "BLOCKHASH" tr h
  switch-atomic number tr h = absurd (
      break_unfailing _
        (Safe-deref state _
          (λ st. Safe-deref st.block_number _ ((Safe-load_value d op state result_stack start))))
        tr _ _ h)
  switch-atomic difficulty tr h = traced 1 "DIFFICULTY" tr h
  switch-atomic gaslimit tr h = traced 1 "GASLIMIT" tr h
  switch-atomic selfbalance tr h = traced 0 "SELFBALANCE" tr h
  switch-atomic basefee tr h = traced 1 "BASEFEE" tr h
  switch-atomic blobhash tr h = traced 1 "BLOBHASH" tr h
  switch-atomic blobbasefee tr h = traced 0 "BLOBBASEFEE" tr h
  switch-atomic gasprice tr h = traced 0 "GASPRICE" tr h
  switch-atomic codesize tr h = absurd (
      break_unfailing _
        (Safe-deref state _ (λ st. (Safe-load_value d op state result_stack start) _)) tr _ _ h)
  switch-atomic pc tr h = traced 0 "PC" tr h
  switch-atomic msize tr h = traced 0 "MSIZE" tr h
  switch-atomic mstore8 tr h = absurd (ok-err h)
  switch-atomic extcodecopy tr h = absurd (ok-err h)
  switch-atomic extcodehash tr h = traced 1 "EXTCODEHASH" tr h
  switch-atomic create tr h = traced 3 "CREATE" tr h
  switch-atomic create2 tr h = traced 4 "CREATE2" tr h
  switch-atomic selfdestruct tr h = absurd (ok-err h)
  switch-atomic extcodesize tr h = traced 1 "EXTCODESIZE" tr h
  switch-atomic calldatasize tr h = absurd (
      break_unfailing _
        (Safe-deref state _ (λ st. (Safe-load_value d op state result_stack start) _)) tr _ _ h)
  switch-atomic returndatasize tr h = traced 0 "RETURNDATASIZE" tr h
  switch-atomic calldataload tr h =
      absurd (break_unfailing _ (Safe-calldataload_case d op state result_stack start) tr _ _ h)
  switch-atomic calldatacopy tr h = absurd (ok-err h)
  switch-atomic codecopy tr h = absurd (ok-err h)
  switch-atomic returndatacopy tr h = absurd (ok-err h)
  switch-atomic sstore tr h =
      absurd (break_unfailing _ (Safe-store_case d op state result_stack start) tr _ _ h)
  switch-atomic tstore tr h =
      absurd (break_unfailing _ (Safe-store_case d op state result_stack start) tr _ _ h)
  switch-atomic sload tr h =
      absurd (break_unfailing _ (Safe-load_case d op state result_stack start) tr _ _ h)
  switch-atomic tload tr h =
      absurd (break_unfailing _ (Safe-load_case d op state result_stack start) tr _ _ h)
  switch-atomic stop tr h = absurd (ok-err h)
  switch-atomic return_ tr h = absurd (ok-err h)
  switch-atomic revert tr h = absurd (ok-err h)
  switch-atomic invalid tr h = absurd (ok-err h)
  switch-atomic caller tr h = absurd (
      break_unfailing _
        (Safe-deref state _ (λ st. (Safe-load_value d op state result_stack start) _)) tr _ _ h)
  switch-atomic keccak256 tr h = traced 2 "KECCAK256" tr h
  switch-atomic mcopy tr h =
      absurd (break_unfailing _ (Safe-mcopy_case d op state result_stack start) tr _ _ h)
  switch-atomic call tr h = absurd (ok-err h)
  switch-atomic delegatecall tr h = absurd (ok-err h)
  switch-atomic staticcall tr h = absurd (ok-err h)
  switch-atomic callcode tr h = absurd (ok-err h)
  switch-atomic (other n) tr h = err-same h
