-- ===== src/BlockProver/Handler.antt =====
-- `processBlockAsUnit` (cmd/block-prove/main.go) from the results of the tracing to the result file,
-- and `SaveDebugMappings` (transpiler/transpiler.go). What it prints and its times are left out; the
-- JSON encoder and the text of a transpiler error are parameters.
use erigon_risc_v_executable.Prelude.{
  ℕ, List, [], ◌∷◌, ◌++◌, Option, none, some, Bool, Text, codes, decimal, length, if◌then◌else◌,
}
use erigon_risc_v_executable.Deps.{Deps}
use erigon_risc_v_executable.Compiler.{to_tool_chain_compatible_assembly}
use erigon_risc_v_executable.Transpiler.{Transpiler, EvmToRiscVMapping, new_transpiler, to_assembly}
use erigon_risc_v_executable.Transpiler.Effects.{Error}
use erigon_risc_v_executable.Prover.{
  Answer, given, refused, Call, write_file, Host, ProverError, Ran, ok, fail,
}
use erigon_risc_v_executable.Prover.Prove.{ProofGeneration, prove, stark_prove}
use erigon_risc_v_executable.BlockProver.{
  TraceResult, ProofResult, done, failed, crashed, process_results, total_evm_instructions,
}

-- the flags of the command
pub record BlockOptions : Type 0 where
  pub block_number : ℕ
  pub debug_assembly : Bool
  pub assembly_file : Text
  pub debug_mode : Bool
  pub skip_proof : Bool
  pub use_stark_proof : Bool

-- the object that is written, without its times
pub record BlockResult : Type 0 where
  pub block_number : ℕ
  pub transaction_count : ℕ
  pub transactions : List ProofResult
  pub total_instructions : ℕ
  pub estimated_transpiled_instructions : ℕ
  pub app_vk : Text
  pub proof : Text

pub record Encoder : Type 0 where
  pub mappings : List EvmToRiscVMapping → Answer (List ℕ)
  pub block_result : BlockResult → Answer (List ℕ)

-- The errors: "failed to transpile transaction %s: %v", "failed to prove block: %v" and "failed to
-- marshal JSON for block: %v"; `assembly_panic` and `trace_panic` are the panics of the assembly and
-- of the transpiler.
pub data BlockError : Type 0 where
  transpile_failed : Text → Error → BlockError
  trace_panic assembly_panic : BlockError
  prove_failed : ProverError → BlockError
  marshal_failed : Text → BlockError

-- an empty `ProofGeneration`, where no proof was made
abbrev pub no_proof : ProofGeneration
no_proof = record { proof = []; app_vk = []; stdout = []; estimated_instructions = 0 }

-- A write whose error is only printed.
abbrev pub try_write : Text → List ℕ → List Call → List Call
try_write path bytes h = write_file path bytes ∷ h

-- `SaveDebugMappings`, whose error is only printed
unfoldable pub save_debug_mappings : Encoder → Text → Transpiler → List Call → List Call
save_debug_mappings encoder filename tr h = elim (encoder.mappings tr.debug_mappings) [
  | refused _ ↦ h
  | given bytes ↦ try_write filename bytes h
]

abbrev pub debug_file : ℕ → Text
debug_file block_number = codes "debug_mappings_block_" ++ (decimal block_number ++ codes ".json")

abbrev pub output_file : ℕ → Text
output_file block_number = codes "block_" ++ (decimal block_number ++ codes ".json")

module _ (d : Deps) (lib_file : Text) (host : Host) (encoder : Encoder)
    (options : BlockOptions) where
  unfoldable pub block_result : List ProofResult → ProofGeneration → BlockResult
  unfolding total_evm_instructions
  block_result proofs output = record {
    block_number = options.block_number;
    transaction_count = length proofs;
    transactions = proofs;
    total_instructions = total_evm_instructions proofs;
    estimated_transpiled_instructions = output.estimated_instructions;
    app_vk = host.encode_hex output.app_vk;
    proof = host.encode_hex output.proof;
  }

  -- the end of the method: the result file, whose writing may fail
  unfoldable pub write_result :
      List ProofResult → ProofGeneration → List Call → Option BlockError × List Call
  unfolding block_result
  write_result proofs output h = elim (encoder.block_result (block_result proofs output)) [
    | refused e ↦ (some (marshal_failed e), h)
    | given bytes ↦ (none, try_write (output_file options.block_number) bytes h)
  ]

  unfoldable pub after_prove :
      Transpiler → List ProofResult → Ran ProofGeneration → Option BlockError × List Call
  unfolding write_result save_debug_mappings
  after_prove tr proofs (ok output h) = write_result proofs output h
  after_prove tr proofs (fail e h) =
      (some (prove_failed e), save_debug_mappings encoder (debug_file options.block_number) tr h)

  unfoldable pub prove_block :
      Transpiler → List ProofResult → Text → List Call → Option BlockError × List Call
  unfolding after_prove write_result save_debug_mappings prove stark_prove
  prove_block tr proofs content h =
      if options.skip_proof
      then write_result proofs no_proof (
          if options.debug_mode
          then save_debug_mappings encoder (debug_file options.block_number) tr h
          else h)
      else after_prove tr proofs
          (if options.use_stark_proof then stark_prove host content h else prove host content h)

  unfoldable pub finish_block :
      Transpiler → List ProofResult → List Call → Option BlockError × List Call
  unfolding prove_block to_tool_chain_compatible_assembly to_assembly
  finish_block tr proofs h = elim (to_tool_chain_compatible_assembly d lib_file (to_assembly tr)) [
    | none ↦ (some assembly_panic, h)
    | some content ↦
        prove_block tr proofs content
          (if options.debug_assembly then try_write options.assembly_file content h else h)
  ]

  -- the method from the end of the tracing on
  unfoldable pub process_traced : List TraceResult → List Call → Option BlockError × List Call
  unfolding finish_block process_results new_transpiler
  process_traced results h = elim (process_results d 0 (length results) results new_transpiler []) [
    | failed tx_hash e ↦ (some (transpile_failed tx_hash e), h)
    | crashed ↦ (some trace_panic, h)
    | done proofs tr ↦ finish_block tr proofs h
  ]
