-- ===== src/Transpiler/Switch.antt =====
-- transpiler/transpiler.go, the switch of `AddInstructionWithResult`, in five parts. Each part takes
-- the opcodes of its lines and leaves the others to the next.
mod Case
unfoldable pub use Case.*
use erigon_risc_v_executable.Prelude.{
  ℕ, zero, suc, ◌+◌, ◌*◌, List, [], ◌∷◌, Option, none, some, ltb, leb, ◌&&◌, if◌then◌else◌, int32,
  pos, get_elem?, length, ◌++◌, Text,
}
use erigon_risc_v_executable.Opcode.{
  Opcode, add, mul, sub, div, sdiv, mod_, smod, addmod, mulmod, exp, signextend, and, or, xor, eq,
  slt, shr, shl, gt, sgt, lt, not, byte, sar, push, dup, swap, log, jump, jumpi, pop, mstore, mload,
  jumpdest, iszero, callvalue, gas, address, balance, origin, timestamp, chainid, coinbase,
  blockhash, number, difficulty, gaslimit, selfbalance, basefee, blobhash, blobbasefee, gasprice,
  codesize, pc, msize, mstore8, extcodecopy, extcodehash, create, create2, selfdestruct,
  extcodesize, calldatasize, returndatasize, calldataload, calldatacopy, codecopy, returndatacopy,
  sstore, tstore, sload, tload, stop, return_, revert, invalid, caller, keccak256, mcopy, call,
  delegatecall, staticcall, callcode,
}
use erigon_risc_v_executable.Assembly.{sp, s3, Instruction}
use erigon_risc_v_executable.Deps.{Deps}
use erigon_risc_v_executable.Trace.{EvmExecutionState, EvmInstructionMetadata}
use erigon_risc_v_executable.Sections.{store, load}
use erigon_risc_v_executable.Emit.{
  add_imm, nop_instr, ebreak_instr, push_opcode, dup_opcode, swap_opcode, add256_call, mul256_call,
  sub256_call, div256_call, and256_call, or256_call, xor256_call, not256_call, shr256_call,
  shl256_call, slt256_call, eq256_call, gt256_call, lt256_call, mcopy_call, save_stack_context,
  create_new_stack_frame, load_from_data_section,
}
use erigon_risc_v_executable.Emit.Copy.{calldataload_call}
use erigon_risc_v_executable.Transpiler.{TranspilerConfig}
use erigon_risc_v_executable.Transpiler.Effects.{
  M, pure, raise, deref, gets, modify, ◌>>=◌, ◌>>◌, emit, pop_args, emit_host, store_debug_info,
  load_value, emit_result, unimplemented, ok, panic, emit_config,
}

module _ (d : Deps) (op : EvmInstructionMetadata) (state : Option EvmExecutionState)
    (result_stack : Option (List ℕ)) (start : ℕ) where
  -- storage, the ends of a frame, hashing, memory copies and calls
  unfoldable pub switch_frames : Opcode → M Flow
  unfolding store_case load_case leave_frame enter_frame mcopy_case load_value emit_result pop_args
  switch_frames sstore = then_break (store_case d op)
  switch_frames tstore = then_break (store_case d op)
  switch_frames sload = then_break (load_case d op)
  switch_frames tload = then_break (load_case d op)
  switch_frames stop = pure returned
  switch_frames return_ = do emit (pop_args 2); leave_frame d start return_
  switch_frames revert = do emit (pop_args 2); leave_frame d start revert
  switch_frames invalid = leave_frame d start invalid
  switch_frames caller = then_break (do st ← deref state; load_value d (d.set_bytes st.caller))
  switch_frames keccak256 = then_break (emit_result d result_stack 2 "KECCAK256")
  switch_frames mcopy = then_break (mcopy_case d op)
  switch_frames call = then_break (do emit (pop_args 7); enter_frame)
  switch_frames delegatecall = then_break (do emit (pop_args 6); enter_frame)
  switch_frames staticcall = then_break (do emit (pop_args 6); enter_frame)
  switch_frames callcode = then_break (do emit (pop_args 7); enter_frame)
  switch_frames c = raise (unimplemented c)

  -- code, logs, contract creation and call data
  unfoldable pub switch_contract : Opcode → M Flow
  unfolding switch_frames calldataload_case
  switch_contract mstore8 = then_break (emit (pop_args 2))
  switch_contract extcodecopy = then_break (emit (pop_args 4))
  switch_contract extcodehash = then_break (emit_result d result_stack 1 "EXTCODEHASH")
  switch_contract create = then_break (emit_result d result_stack 3 "CREATE")
  switch_contract create2 = then_break (emit_result d result_stack 4 "CREATE2")
  switch_contract selfdestruct = then_break (emit (pop_args 1))
  switch_contract extcodesize = then_break (emit_result d result_stack 1 "EXTCODESIZE")
  switch_contract (log n) =
      if ltb n 5 then then_break (emit (pop_args (n + 2))) else raise (unimplemented (log n))
  switch_contract calldatasize =
      then_break (do st ← deref state; load_value d (length st.call_data))
  switch_contract returndatasize = then_break (emit_result d result_stack 0 "RETURNDATASIZE")
  switch_contract calldataload = then_break (calldataload_case d op state)
  switch_contract calldatacopy = then_break (emit (pop_args 3))
  switch_contract codecopy = then_break (emit (pop_args 3))
  switch_contract returndatacopy = then_break (emit (pop_args 3))
  switch_contract c = switch_frames c

  -- the stack, memory and what the block and the transaction hold
  unfoldable pub switch_environment : Opcode → M Flow
  unfolding switch_contract
  switch_environment jump = then_break (emit (pop_args 1))
  switch_environment jumpi = then_break (emit (pop_args 2))
  switch_environment pop = then_break (emit (pop_args 1))
  switch_environment mstore = then_break (emit (pop_args 2))
  switch_environment mload = then_break (emit_result d result_stack 1 "MLOAD")
  switch_environment jumpdest = then_break (emit (nop_instr ∷ []))
  switch_environment iszero = then_break (do emit (push_opcode (pos 0)); emit_host eq256_call 2)
  switch_environment callvalue =
      then_break (do st ← deref state; v ← deref st.call_value; load_value d v)
  switch_environment gas = then_break (do st ← deref state; v ← deref st.gas; load_value d v)
  switch_environment address =
      then_break (do st ← deref state; load_value d (d.set_bytes st.address))
  switch_environment balance = then_break (emit_result d result_stack 1 "BALANCE")
  switch_environment origin = then_break (do st ← deref state; load_value d (d.set_bytes st.origin))
  switch_environment timestamp =
      then_break (do st ← deref state; v ← deref st.timestamp; load_value d v)
  switch_environment chainid =
      then_break (do st ← deref state; v ← deref st.chain_id; load_value d v)
  switch_environment coinbase =
      then_break (do st ← deref state; load_value d (d.set_bytes st.coinbase))
  switch_environment blockhash = then_break (emit_result d result_stack 1 "BLOCKHASH")
  switch_environment number =
      then_break (do st ← deref state; v ← deref st.block_number; load_value d v)
  switch_environment difficulty = then_break (emit_result d result_stack 1 "DIFFICULTY")
  switch_environment gaslimit = then_break (emit_result d result_stack 1 "GASLIMIT")
  switch_environment selfbalance = then_break (emit_result d result_stack 0 "SELFBALANCE")
  switch_environment basefee = then_break (emit_result d result_stack 1 "BASEFEE")
  switch_environment blobhash = then_break (emit_result d result_stack 1 "BLOBHASH")
  switch_environment blobbasefee = then_break (emit_result d result_stack 0 "BLOBBASEFEE")
  switch_environment gasprice = then_break (emit_result d result_stack 0 "GASPRICE")
  switch_environment codesize = then_break (do st ← deref state; load_value d (length st.code_data))
  switch_environment pc = then_break (emit_result d result_stack 0 "PC")
  switch_environment msize = then_break (emit_result d result_stack 0 "MSIZE")
  switch_environment c = switch_contract c

  -- constants, copies and exchanges on the stack
  unfoldable pub switch_stack : Opcode → M Flow
  unfolding switch_environment push_case
  switch_stack (push n) = then_break (push_case d op n)
  switch_stack (dup n) =
      if leb 1 n && leb n 16
      then then_break (emit (dup_opcode n))
      else raise (unimplemented (dup n))
  switch_stack (swap n) =
      if leb 1 n && leb n 16
      then then_break (emit (swap_opcode n))
      else raise (unimplemented (swap n))
  switch_stack c = switch_environment c

  -- arithmetic, comparisons and bits
  unfoldable pub switch_arithmetic : Opcode → M Flow
  unfolding switch_stack
  switch_arithmetic add = then_break (emit_host add256_call 2)
  switch_arithmetic mul = then_break (emit_host mul256_call 2)
  switch_arithmetic sub = then_break (emit_host sub256_call 2)
  switch_arithmetic div = then_break (emit_host div256_call 2)
  switch_arithmetic sdiv = then_break (emit_result d result_stack 2 "SDIV")
  switch_arithmetic mod_ = then_break (emit_result d result_stack 2 "MOD")
  switch_arithmetic smod = then_break (emit_result d result_stack 2 "SMOD")
  switch_arithmetic addmod = then_break (emit_result d result_stack 3 "ADDMOD")
  switch_arithmetic mulmod = then_break (emit_result d result_stack 3 "MULMOD")
  switch_arithmetic exp = then_break (emit_result d result_stack 2 "EXP")
  switch_arithmetic signextend = then_break (emit_result d result_stack 2 "SIGNEXTEND")
  switch_arithmetic and = then_break (emit_host and256_call 2)
  switch_arithmetic or = then_break (emit_host or256_call 2)
  switch_arithmetic xor = then_break (emit_host xor256_call 2)
  switch_arithmetic eq = then_break (emit_host eq256_call 2)
  switch_arithmetic slt = then_break (emit_host slt256_call 2)
  switch_arithmetic shr = then_break (emit_host shr256_call 2)
  switch_arithmetic shl = then_break (emit_host shl256_call 2)
  switch_arithmetic gt = then_break (emit_host gt256_call 2)
  switch_arithmetic sgt = then_break (emit_result d result_stack 2 "SGT")
  switch_arithmetic lt = then_break (emit_host lt256_call 2)
  switch_arithmetic not = then_break (emit_host not256_call 1)
  switch_arithmetic byte = then_break (emit_result d result_stack 2 "BYTE")
  switch_arithmetic sar = then_break (emit_result d result_stack 2 "SAR")
  switch_arithmetic c = switch_stack c
