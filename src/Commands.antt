-- ===== src/Commands.antt =====
-- cmd/tx-prove/main.go: the callback that proves a traced transaction; and cmd/evm-prove/main.go.
-- Flags and printed messages are left out.
pub mod Transaction
use erigon_risc_v_executable.Prelude.{
  ℕ, List, [], ◌∷◌, ◌++◌, Option, none, some, Bool, true, false, Text, codes, ◌==◌, ◌&&◌,
  if◌then◌else◌,
}
use erigon_risc_v_executable.Assembly.{AssemblyFile}
use erigon_risc_v_executable.Deps.{Deps}
use erigon_risc_v_executable.Compiler.{to_tool_chain_compatible_assembly}
use erigon_risc_v_executable.Tracer.{StateTracer}
use erigon_risc_v_executable.Tracer.Simple.{
  Evm, EvmError, TestConfig, Tested, assembled, evm_failed, transpile_failed, crashed,
  test_runner_execute,
}
use erigon_risc_v_executable.Transpiler.{Transpiler, new_transpiler, to_assembly}
use erigon_risc_v_executable.Transpiler.Effects.{Error, Outcome, ok, err, panic}
use erigon_risc_v_executable.Transpiler.Step.{process_execution, Snapshots}
use erigon_risc_v_executable.Prover.{
  Answer, given, refused, Call, Host, ProverError, ResultsFile, Ran, fail,
}
use erigon_risc_v_executable.Prover.Prove.{ProofGeneration, prove}
use erigon_risc_v_executable.BlockProver.Handler.{Encoder, try_write, save_debug_mappings}

pub record TransactionOptions : Type 0 where
  pub debug_mode : Bool
  pub debug_assembly : Bool
  pub assembly_file : Text
  pub skip_proving : Bool

-- what the callback returns, or its panic
pub data Created : Type 0 where
  created : ResultsFile → Created
  not_transpiled : Error → Created
  not_proved : ProverError → Created
  panicked : Created

abbrev pub skipped_results : ResultsFile
skipped_results = record { app_vk = codes "skipped"; proof = codes "skipped" }

module _ (d : Deps) (lib_file : Text) (host : Host) (encoder : Encoder)
    (options : TransactionOptions) where
  -- the results of a proof
  abbrev pub proof_results : Ran ProofGeneration → Created × List Call
  proof_results (Ran.ok output h) = (
    created
        (record { app_vk = host.encode_hex output.app_vk; proof = host.encode_hex output.proof }),
    h,
  )
  proof_results (fail e h) = (not_proved e, h)

  -- the files for debugging
  unfoldable pub debug_writes : Transpiler → Text → List Call → List Call
  unfolding save_debug_mappings
  debug_writes tr content h =
      let saved =
        if options.debug_mode
        then save_debug_mappings encoder (codes "debug_mappings.json") tr h
        else h in
      if options.debug_assembly then try_write options.assembly_file content saved else saved

  unfoldable pub prove_content : Text → List Call → Created × List Call
  unfolding prove
  prove_content content h =
      if options.skip_proving
      then (created skipped_results, h)
      else proof_results (prove host content h)

  unfoldable pub after_process :
      Outcome (Snapshots × Option Error) → List Call → Created × List Call
  unfolding to_tool_chain_compatible_assembly to_assembly debug_writes prove_content
  after_process (ok (_, some e) tr) h = (not_transpiled e, h)
  after_process (err e tr) h = (not_transpiled e, h)
  after_process panic h = (panicked, h)
  after_process (ok (_, none) tr) h =
      elim (to_tool_chain_compatible_assembly d lib_file (to_assembly tr)) [
        | none ↦ (panicked, h)
        | some content ↦ prove_content content (debug_writes tr content h)
      ]

  -- the callback that the tracer's `GetResult` calls
  unfoldable pub create_results : StateTracer → List Call → Created × List Call
  unfolding after_process new_transpiler
  create_results new_tracer h =
      after_process
        (process_execution d new_tracer.execution_state new_tracer.evm_instructions new_transpiler)
        h

-- cmd/evm-prove
pub record EvmProveArgs : Type 0 where
  pub bytecode : Text
  pub calldata : Text
  pub output_file : Text

-- the messages with which the command exits
pub data EvmProveError : Type 0 where
  bad_bytecode bad_calldata : Text → EvmProveError
  evm_error : EvmError → EvmProveError
  transpile_error : Error → EvmProveError
  prove_error : ProverError → EvmProveError
  panic_exit : EvmProveError

-- `strings.TrimPrefix(s, "0x")`
unfoldable pub trim_prefix : Text → Text
trim_prefix [] = []
trim_prefix (c ∷ []) = c ∷ []
trim_prefix (c ∷ x ∷ s) = if (c == b'0') && (x == b'x') then s else c ∷ x ∷ s

module _ (d : Deps) (lib_file : Text) (host : Host) (evm : Evm) where
  -- no call data, where the text is empty
  unfoldable pub decode_calldata : Text → Answer (List ℕ)
  decode_calldata [] = given []
  decode_calldata (c ∷ s) = host.decode_hex (c ∷ s)

  -- The two files, whose errors are dropped.
  abbrev pub write_proof : Text → Ran ProofGeneration → Option EvmProveError × List Call
  write_proof output_file (fail e h) = (some (prove_error e), h)
  write_proof output_file (Ran.ok output h) = (
    none,
    try_write (output_file ++ codes ".vk") output.app_vk
        (try_write (output_file ++ codes ".proof") output.proof h),
  )

  unfoldable pub prove_tested : Text → Tested → List Call → Option EvmProveError × List Call
  unfolding to_tool_chain_compatible_assembly prove
  prove_tested output_file (evm_failed e) h = (some (evm_error e), h)
  prove_tested output_file (transpile_failed e) h = (some (transpile_error e), h)
  prove_tested output_file crashed h = (some panic_exit, h)
  prove_tested output_file (assembled assembly _) h =
      elim (to_tool_chain_compatible_assembly d lib_file assembly) [
        | none ↦ (some panic_exit, h)
        | some content ↦ write_proof output_file (prove host content h)
      ]

  unfoldable pub evm_prove : EvmProveArgs → List Call → Option EvmProveError × List Call
  unfolding trim_prefix decode_calldata test_runner_execute prove_tested
  evm_prove args h = elim (host.decode_hex (trim_prefix args.bytecode)) [
    | refused e ↦ (some (bad_bytecode e), h)
    | given bytecode ↦ elim (decode_calldata (trim_prefix args.calldata)) [
      | refused e ↦ (some (bad_calldata e), h)
      | given calldata ↦
          prove_tested args.output_file
            (test_runner_execute evm d bytecode
              (record { call_value = some 0; call_data = calldata }))
            h
    ]
  ]
