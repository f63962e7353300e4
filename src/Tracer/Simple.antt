-- ===== src/Tracer/Simple.antt =====
-- tracer/tracer.go, `SimpleTracer`, and transpiler/test_runner.go, `TestRunner`. The virtual machine is
-- a parameter: it answers a call with the hooks that it called, the gas left and an error, from the
-- changes that were made to its accounts.
use erigon_risc_v_executable.Prelude.{
  ℕ, ◌+◌, ◌-◌, ◌%◌, ◌^◌, ltb, ◌&&◌, List, [], ◌∷◌, Option, none, some, Bool, Text, codes,
  if◌then◌else◌,
}
use erigon_risc_v_executable.Assembly.{AssemblyFile}
use erigon_risc_v_executable.Deps.{Deps}
use erigon_risc_v_executable.MockState.{MockState, new_mock_state, get_state}
use erigon_risc_v_executable.Trace.{EvmExecutionState, EvmInstructionMetadata}
use erigon_risc_v_executable.Tracer.{StateTracer, Event, new_state_tracer, trace}
use erigon_risc_v_executable.Transpiler.{new_test_transpiler, set_enable_snapshots, to_assembly}
use erigon_risc_v_executable.Transpiler.Effects.{Error, Outcome, ok, err, panic}
use erigon_risc_v_executable.Transpiler.Step.{process_execution, Snapshots}

-- a change of the machine's accounts
pub data AccountChange : Type 0 where
  create_account : Text → AccountChange
  set_code : Text → List ℕ → AccountChange
  set_balance : Text → ℕ → AccountChange

-- `evm.Call`: the caller, the contract, the input, the gas and the value
pub record EvmCall : Type 0 where
  pub caller : Text
  pub contract : Text
  pub input : List ℕ
  pub gas_limit : ℕ
  pub value : ℕ

-- `vm.ErrExecutionReverted`, or another error with its text
pub data EvmError : Type 0 where
  reverted : EvmError
  other_error : Text → EvmError

pub record EvmRun : Type 0 where
  pub events : List Event
  pub gas_left : ℕ
  pub error : Option EvmError

-- The machine, and `strings.Contains`.
pub record Evm : Type 0 where
  pub call : List AccountChange → EvmCall → EvmRun
  pub contains : Text → Text → Bool

pub record SimpleTracer : Type 0 where
  pub state : MockState
  pub tracer : StateTracer
  -- the changes of the accounts, the newest first
  pub changes : List AccountChange

unfoldable pub new_simple_tracer : SimpleTracer
unfolding new_state_tracer
new_simple_tracer = record {
  state = new_mock_state;
  tracer = record new_state_tracer { block_time = 1; chain_id = some 1337 };
  changes = [];
}

unfoldable pub deploy_contract : Text → List ℕ → Option ℕ → SimpleTracer → SimpleTracer
deploy_contract addr bytecode balance t =
    let deployed = set_code addr bytecode ∷ create_account addr ∷ t.changes in
    record t {
      -- `balance.Sign() > 0`, by the sign bit
      changes = elim balance [
        | none ↦ deployed
        | some v ↦ if ltb 0 v && ltb v (2 ^ 255) then set_balance addr v ∷ deployed else deployed
      ];
    }

abbrev pub caller_address : Text
caller_address = codes "0xabcd"

-- what `ExecuteContract` returns
pub record Execution : Type 0 where
  pub instructions : List EvmInstructionMetadata
  pub state : Option EvmExecutionState
  pub gas_used : ℕ
  pub error : Option EvmError

abbrev pub contract_address : Text
contract_address = codes "0x1234567890123456789012345678901234567890"

pub record TestConfig : Type 0 where
  pub call_value : Option ℕ
  pub call_data : List ℕ

-- what `TestRunner.Execute` returns
pub data Tested : Type 0 where
  assembled : AssemblyFile → Snapshots → Tested
  evm_failed : EvmError → Tested
  transpile_failed : Error → Tested
  crashed : Tested

-- the end of `TestRunner.Execute`
unfoldable pub tested : Outcome (Snapshots × Option Error) → Tested
unfolding to_assembly
tested (ok (snapshots, none) tr) = assembled (to_assembly tr) snapshots
tested (ok (_, some e) tr) = transpile_failed e
tested (err e tr) = transpile_failed e
tested panic = crashed

module _ (evm : Evm) where
  -- the errors that are not passed on
  unfoldable pub passed_on : Option EvmError → Option EvmError
  passed_on none = none
  passed_on (some reverted) = none
  passed_on (some (other_error e)) =
      if evm.contains e (codes "invalid opcode:") then none else some (other_error e)

  unfoldable pub execute_contract :
      Text → List ℕ → ℕ → Option ℕ → SimpleTracer → Execution × SimpleTracer
  unfolding passed_on trace
  execute_contract contract_addr input gas_limit call_value t =
      let value : ℕ = elim call_value [ none ↦ 0 | some v ↦ v ] in
      let changes = set_balance caller_address ((value + 1000000) % 2 ^ 256) ∷ t.changes in
      let run = evm.call changes (record {
        caller = caller_address;
        contract = contract_addr;
        input = input;
        gas_limit = gas_limit;
        value = value;
      }) in
      let tracer = trace run.events t.tracer in
      (
        record {
          instructions = tracer.evm_instructions;
          state = tracer.execution_state;
          gas_used = (gas_limit + (2 ^ 64 - run.gas_left)) % 2 ^ 64;
          error = passed_on run.error;
        },
        record t { tracer = tracer; changes = changes },
      )

  unfoldable pub get_storage_at : Text → Text → SimpleTracer → ℕ
  unfolding get_state
  get_storage_at addr key t = get_state addr key t.state

  unfoldable pub test_runner_execute : Deps → List ℕ → TestConfig → Tested
  unfolding new_simple_tracer deploy_contract execute_contract tested new_test_transpiler
      set_enable_snapshots
  test_runner_execute d program config =
      let deployed = deploy_contract contract_address program (some 1000) new_simple_tracer in
      let value : ℕ = elim config.call_value [ none ↦ 0 | some v ↦ v ] in
      let run =
        (execute_contract contract_address config.call_data 100000 (some value) deployed).0 in
      elim run.error [
        | some e ↦ evm_failed e
        | none ↦ tested (
            process_execution d run.state run.instructions
              (set_enable_snapshots new_test_transpiler))
      ]
