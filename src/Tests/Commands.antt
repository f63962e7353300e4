-- ===== src/Tests/Commands.antt =====
-- The theorem on the callback of cmd/tx-prove, and runs of cmd/evm-prove.
use erigon_risc_v_executable.Prelude.{◌≡◌, refl, [], none, some, Text, codes, true, false}
use erigon_risc_v_executable.Compiler.{to_tool_chain_compatible_assembly}
use erigon_risc_v_executable.Transpiler.{Transpiler, new_transpiler, to_assembly}
use erigon_risc_v_executable.Tracer.{StateTracer}
use erigon_risc_v_executable.Transpiler.Effects.{ok}
use erigon_risc_v_executable.Transpiler.Step.{process_execution, Snapshots}
use erigon_risc_v_executable.Tracer.Simple.{
  Evm, other_error, new_simple_tracer, execute_contract, contract_address,
}
use erigon_risc_v_executable.Commands.{TransactionOptions, debug_writes, create_results, evm_prove}
use erigon_risc_v_executable.Commands.Transaction.{Creates, create_results-Creates}
use erigon_risc_v_executable.Tests.{test_deps, test_state, test_ops, test_host}
use erigon_risc_v_executable.Tests.Traces.{test_state-IsFilled, test_ops-AllReady}
use erigon_risc_v_executable.Tests.Blocks.{test_encoder}

abbrev test_tracer : StateTracer
test_tracer = record {
  evm_instructions = test_ops;
  execution_state = some test_state;
  block_time = 1;
  chain_id = some 1;
  coinbase = [];
  origin = [];
  block_number = some 7;
}

abbrev test_transaction : TransactionOptions
test_transaction = record {
  debug_mode = true;
  debug_assembly = false;
  assembly_file = codes "a.s";
  skip_proving = false;
}

create_results-Creates_example :
    (snaps : Snapshots) × (tr : Transpiler) × (content : Text) × (process_execution test_deps
        (some test_state)
        test_ops
        new_transpiler
      ≡ ok (snaps, none) tr)
    × (to_tool_chain_compatible_assembly test_deps [] (to_assembly tr) ≡ some content)
    × Creates test_deps [] test_host test_encoder test_transaction content
        (debug_writes test_deps [] test_host test_encoder test_transaction tr content [])
        (create_results test_deps [] test_host test_encoder test_transaction test_tracer [])
create_results-Creates_example =
    create_results-Creates test_deps [] test_host test_encoder test_transaction test_tracer
      test_state [] refl test_state-IsFilled test_ops-AllReady

-- a machine that stops at an opcode that it does not know
abbrev test_evm : Evm
test_evm = record {
  call = λ changes call. record {
    events = [];
    gas_left = 99990;
    error = some (other_error (codes "invalid opcode: 0x0c"));
  };
  contains = λ e part. true;
}

execute_contract_run :
    (execute_contract test_evm contract_address [] 100000 none new_simple_tracer).0.error ≡ none
unfolding execute_contract
execute_contract_run = refl

-- "0x" is dropped in front of the texts of the command line.
evm_prove_run :
    (evm_prove test_deps [] test_host test_evm
      (record { bytecode = codes "0x"; calldata = codes "0x"; output_file = codes "a" })
      []).0
    ≡ none
unfolding evm_prove process_execution
evm_prove_run = refl
