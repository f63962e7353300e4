-- ===== src/Transpiler/Arity.antt =====
-- How many items each opcode takes from the EVM's stack and puts on it, from the yellow paper, and
-- where the emitted code differs. Beside it, what an item of the trace must hold for the transpiler to translate its opcode.
use erigon_risc_v_executable.Prelude.{
  ℕ, ◌+◌, ◌≤◌, ◌<◌, ◌^◌, ◌≡◌, Option, some, List, length, last?, Bool, true, false, if◌then◌else◌,
}
use erigon_risc_v_executable.Trace.{EvmExecutionState, EvmInstructionMetadata}
use erigon_risc_v_executable.Opcode.{
  Opcode, add, mul, sub, div, sdiv, mod_, smod, addmod, mulmod, exp, signextend, and, or, xor, eq,
  slt, shr, shl, gt, sgt, lt, not, byte, sar, push, dup, swap, log, jump, jumpi, pop, mstore, mload,
  iszero, callvalue, gas, address, balance, origin, timestamp, chainid, coinbase, blockhash, number,
  difficulty, gaslimit, selfbalance, basefee, blobhash, blobbasefee, gasprice, codesize, pc, msize,
  mstore8, extcodecopy, extcodehash, create, create2, selfdestruct, extcodesize, calldatasize,
  returndatasize, calldataload, calldatacopy, codecopy, returndatacopy, sstore, tstore, sload,
  tload, return_, revert, caller, keccak256, mcopy, call, delegatecall, staticcall, callcode, other,
}

abbrev pub evm_pops : Opcode → ℕ
evm_pops add = 2
evm_pops mul = 2
evm_pops sub = 2
evm_pops div = 2
evm_pops sdiv = 2
evm_pops mod_ = 2
evm_pops smod = 2
evm_pops addmod = 3
evm_pops mulmod = 3
evm_pops exp = 2
evm_pops signextend = 2
evm_pops and = 2
evm_pops or = 2
evm_pops xor = 2
evm_pops eq = 2
evm_pops slt = 2
evm_pops shr = 2
evm_pops shl = 2
evm_pops gt = 2
evm_pops sgt = 2
evm_pops lt = 2
evm_pops not = 1
evm_pops byte = 2
evm_pops sar = 2
evm_pops (log n) = n + 2
evm_pops jump = 1
evm_pops jumpi = 2
evm_pops pop = 1
evm_pops mstore = 2
evm_pops mload = 1
evm_pops iszero = 1
evm_pops balance = 1
evm_pops blockhash = 1
evm_pops blobhash = 1
evm_pops mstore8 = 2
evm_pops extcodecopy = 4
evm_pops extcodehash = 1
evm_pops create = 3
evm_pops create2 = 4
evm_pops selfdestruct = 1
evm_pops extcodesize = 1
evm_pops calldataload = 1
evm_pops calldatacopy = 3
evm_pops codecopy = 3
evm_pops returndatacopy = 3
evm_pops sstore = 2
evm_pops tstore = 2
evm_pops sload = 1
evm_pops tload = 1
evm_pops return_ = 2
evm_pops revert = 2
evm_pops keccak256 = 2
evm_pops mcopy = 3
evm_pops call = 7
evm_pops delegatecall = 6
evm_pops staticcall = 6
evm_pops callcode = 7
evm_pops _ = 0

abbrev pub evm_pushes : Opcode → ℕ
evm_pushes add = 1
evm_pushes mul = 1
evm_pushes sub = 1
evm_pushes div = 1
evm_pushes sdiv = 1
evm_pushes mod_ = 1
evm_pushes smod = 1
evm_pushes addmod = 1
evm_pushes mulmod = 1
evm_pushes exp = 1
evm_pushes signextend = 1
evm_pushes and = 1
evm_pushes or = 1
evm_pushes xor = 1
evm_pushes eq = 1
evm_pushes slt = 1
evm_pushes shr = 1
evm_pushes shl = 1
evm_pushes gt = 1
evm_pushes sgt = 1
evm_pushes lt = 1
evm_pushes not = 1
evm_pushes byte = 1
evm_pushes sar = 1
evm_pushes (push _) = 1
evm_pushes (dup _) = 1
evm_pushes mload = 1
evm_pushes iszero = 1
evm_pushes callvalue = 1
evm_pushes gas = 1
evm_pushes address = 1
evm_pushes balance = 1
evm_pushes origin = 1
evm_pushes timestamp = 1
evm_pushes chainid = 1
evm_pushes coinbase = 1
evm_pushes blockhash = 1
evm_pushes number = 1
evm_pushes difficulty = 1
evm_pushes gaslimit = 1
evm_pushes selfbalance = 1
evm_pushes basefee = 1
evm_pushes blobhash = 1
evm_pushes blobbasefee = 1
evm_pushes gasprice = 1
evm_pushes codesize = 1
evm_pushes pc = 1
evm_pushes msize = 1
evm_pushes extcodehash = 1
evm_pushes create = 1
evm_pushes create2 = 1
evm_pushes extcodesize = 1
evm_pushes calldatasize = 1
evm_pushes returndatasize = 1
evm_pushes calldataload = 1
evm_pushes sload = 1
evm_pushes tload = 1
evm_pushes caller = 1
evm_pushes keccak256 = 1
evm_pushes call = 1
evm_pushes delegatecall = 1
evm_pushes staticcall = 1
evm_pushes callcode = 1
evm_pushes _ = 0

-- The opcodes whose result the code leaves to the item that marks the end of their frame.
abbrev pub late_pushes : Opcode → ℕ
late_pushes call = 1
late_pushes delegatecall = 1
late_pushes staticcall = 1
late_pushes callcode = 1
late_pushes _ = 0

-- The opcodes for which the code takes one item more than the EVM does.
abbrev pub extra_pops : Opcode → ℕ
extra_pops difficulty = 1
extra_pops gaslimit = 1
extra_pops basefee = 1
extra_pops _ = 0

-- The fields of the state that the tracer may leave nil are set, and the call data is of a size
-- that memory can hold.
pub record IsFilled (st : EvmExecutionState) : Type 0 where
  pub has_call_value : (v : ℕ) × (st.call_value ≡ some v)
  pub has_gas : (v : ℕ) × (st.gas ≡ some v)
  pub has_timestamp : (v : ℕ) × (st.timestamp ≡ some v)
  pub has_chain_id : (v : ℕ) × (st.chain_id ≡ some v)
  pub has_block_number : (v : ℕ) × (st.block_number ≡ some v)
  pub call_data_fits : length st.call_data + 32 < 2 ^ 64

-- The family indices are in range, and the operands that the opcode reads from the item are there.
abbrev pub HasOperands : EvmInstructionMetadata → Opcode → Type 0
HasOperands op (push n) = (n ≤ 32) × (n ≤ length op.arguments)
HasOperands op (dup n) = (1 ≤ n) × (n ≤ 16)
HasOperands op (swap n) = (1 ≤ n) × (n ≤ 16)
HasOperands op (log n) = n < 5
HasOperands op sstore = 2 ≤ length op.stack_snapshot
HasOperands op tstore = 2 ≤ length op.stack_snapshot
HasOperands op sload = 1 ≤ length op.stack_snapshot
HasOperands op tload = 1 ≤ length op.stack_snapshot
HasOperands op calldataload = 1 ≤ length op.stack_snapshot
HasOperands op (other _) = ⊥
HasOperands op _ = Unit

-- The opcodes whose result is taken from the trace.
abbrev pub from_trace : Opcode → Bool
from_trace sdiv = true
from_trace mod_ = true
from_trace smod = true
from_trace addmod = true
from_trace mulmod = true
from_trace exp = true
from_trace signextend = true
from_trace sgt = true
from_trace byte = true
from_trace sar = true
from_trace mload = true
from_trace balance = true
from_trace blockhash = true
from_trace difficulty = true
from_trace gaslimit = true
from_trace selfbalance = true
from_trace basefee = true
from_trace blobhash = true
from_trace blobbasefee = true
from_trace gasprice = true
from_trace pc = true
from_trace msize = true
from_trace extcodehash = true
from_trace create = true
from_trace create2 = true
from_trace extcodesize = true
from_trace returndatasize = true
from_trace keccak256 = true
from_trace _ = false

-- Such an opcode finds its result on top of the stack that the trace holds for it.
abbrev pub HasResult : Option (List ℕ) → Opcode → Type 0
HasResult result_stack c =
    if from_trace c
    then ((a : List ℕ) × (result : ℕ) × (result_stack ≡ some a) × (last? a ≡ some result))
    else Unit
