-- ===== src/Opcode.antt =====
-- The EVM's opcodes, `vm.OpCode` of Erigon, with the constants that the switch of
-- `AddInstructionWithResult` (transpiler/transpiler.go) names. `push n`, `dup n`, `swap n` and
-- `log n` are the families PUSHn, DUPn, SWAPn and LOGn; `other` is any byte with no constant there.
use erigon_risc_v_executable.Prelude.{ℕ}

pub data Opcode : Type 0 where
  add mul sub div sdiv mod_ smod addmod mulmod exp signextend : Opcode
  and or xor eq slt shr shl gt sgt lt not byte sar : Opcode
  push dup swap log : ℕ → Opcode
  jump jumpi pop mstore mload jumpdest iszero callvalue gas address balance origin : Opcode
  timestamp chainid coinbase blockhash number difficulty gaslimit selfbalance basefee : Opcode
  blobhash blobbasefee gasprice codesize pc msize mstore8 extcodecopy extcodehash : Opcode
  create create2 selfdestruct extcodesize calldatasize returndatasize calldataload : Opcode
  calldatacopy codecopy returndatacopy sstore tstore sload tload stop return_ revert : Opcode
  invalid caller keccak256 mcopy call delegatecall staticcall callcode : Opcode
  other : ℕ → Opcode
