-- ===== src/Tests.antt =====
-- Concrete inputs: libraries, a machine, a linker and a trace, and the theorems at them.
pub mod Traces
pub mod Data
pub mod Stacks
pub mod Files
pub mod Events
pub mod Reads
pub mod Accounts
pub mod Blocks
pub mod Provers
pub mod Commands
use erigon_risc_v_executable.Prelude.{
  ℕ, ◌%◌, ◌^◌, ◌<◌, ◌≡◌, refl, [], ◌∷◌, none, some, true, false, codes, decimal, decimal-injective,
  arith,
}
use erigon_risc_v_executable.Opcode.{push, mload, stop, other}
use erigon_risc_v_executable.Assembly.{Reg, sp, s1, s3}
use erigon_risc_v_executable.Deps.{Deps, IsDeps, big_endian, bytes_be}
use erigon_risc_v_executable.Trace.{EvmExecutionState, EvmInstructionMetadata}
use erigon_risc_v_executable.Opcode.{Opcode}
use erigon_risc_v_executable.Prelude.{List}
use erigon_risc_v_executable.Machine.{Machine, Linked}
use erigon_risc_v_executable.Prover.{Host, given, directory, file}
use erigon_risc_v_executable.Compiler.{join}

-- Libraries that do what is documented; `hex` prints in decimal.
abbrev pub test_deps : Deps
test_deps = record {
  hex = decimal;
  set_bytes = big_endian;
  uint64 = λ v. v % 2 ^ 64;
  bytes32 = bytes_be 32;
  op_string = λ op. codes "OP";
}

pub test_deps-IsDeps : IsDeps test_deps
test_deps-IsDeps = record {
  hex_injective = decimal-injective;
  set_bytes_lem = λ bs h. refl;
  uint64_lem = λ v. refl;
  bytes32_lem = λ v h. refl;
}

abbrev test_regs : Reg → ℕ
test_regs sp = 4096
test_regs s1 = 2048
test_regs s3 = 5120
test_regs _ = 0

-- a machine with room on both stacks, every byte of its memory 7
abbrev pub test_machine : Machine
test_machine = record { regs = test_regs; memory = λ q. 7 }

pub test_memory-lt : (q : ℕ) → test_machine.memory q < 256
test_memory-lt q = omega arith

-- a linker that places every label at one address
abbrev pub test_linked : Linked
test_linked = record { labels = λ name. some 65536; routines = λ name m. some m }

abbrev pub test_state : EvmExecutionState
test_state = record {
  call_value = some 0;
  call_data = 1 ∷ 2 ∷ [];
  code_data = 96 ∷ 5 ∷ [];
  gas = some 21000;
  address = 1 ∷ [];
  caller = 2 ∷ [];
  origin = 2 ∷ [];
  timestamp = some 1;
  chain_id = some 1;
  coinbase = 3 ∷ [];
  block_number = some 7;
}

abbrev pub item : Opcode → List ℕ → List ℕ → EvmInstructionMetadata
item op arguments stack = record {
  opcode = op;
  arguments = arguments;
  stack_snapshot = stack;
  result = none;
  is_stack_restore = false;
}

-- `PUSH1 64; MLOAD; STOP`
abbrev pub test_ops : List EvmInstructionMetadata
test_ops = item (push 1) (64 ∷ []) [] ∷ item mload [] (64 ∷ []) ∷ item stop [] (9 ∷ []) ∷ []

-- the same with an opcode that the switch does not have
abbrev pub bad_ops : List EvmInstructionMetadata
bad_ops = item (push 1) (64 ∷ []) [] ∷ item (other 12) [] (64 ∷ []) ∷ []

-- A system on which every call succeeds.
abbrev pub test_host : Host
test_host = record {
  temp_dir = λ h. given (codes "/tmp/a");
  read = λ h. given (1 ∷ 2 ∷ []);
  act = λ h. none;
  run = λ h. record { stdout = codes "Execution output: 1"; stderr = []; error = none };
  join_path = λ ts. join (codes "/") ts;
  toolchain = directory (codes "openvm") ∷ file (codes "openvm/a") (7 ∷ []) ∷ [];
  encode_hex = λ bytes. bytes;
  decode_hex = λ t. given t;
  unmarshal = λ bytes. given (record { app_vk = 3 ∷ []; proof = 4 ∷ [] });
}
