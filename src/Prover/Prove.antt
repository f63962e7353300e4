-- ===== src/Prover/Prove.antt =====
-- `Prove`, `StarkProve`, `TestRun` and `getEstimatedInstructionCount` (prover/prover.go).
use erigon_risc_v_executable.Prelude.{
  ℕ, List, [], ◌∷◌, ◌++◌, Option, none, some, Text, codes, length,
}
use erigon_risc_v_executable.Prover.{
  Host, ProverError, plain, P, ◌>>=◌, pure, raise, wrap, execute, cli_read_file, read_bytes,
  or_raise,
}
use erigon_risc_v_executable.Prover.Workspace.{setup_execution}
use erigon_risc_v_executable.Prover.Lines.{lines, find_line}

pub record ProofGeneration : Type 0 where
  pub proof : List ℕ
  pub app_vk : List ℕ
  pub stdout : Text
  pub estimated_instructions : ℕ

abbrev pub count_lines : Text × Option ProverError → P ℕ
count_lines (output, some _) = pure 0
count_lines (output, none) = pure (length (lines output))

module _ (host : Host) where
  unfoldable pub get_estimated_instruction_count : Text → P ℕ
  unfolding execute lines
  get_estimated_instruction_count work_space =
      execute host work_space (
        codes "riscv64-unknown-elf-objdump"
        ∷ codes "-d"
        ∷ codes "target/riscv32im-risc0-zkvm-elf/release/prover"
        ∷ [])
      >>= count_lines

  unfoldable pub prove : Text → P ProofGeneration
  unfolding setup_execution execute cli_read_file get_estimated_instruction_count
  prove content = do
    work_space ← wrap (codes "failed to setup execution") (setup_execution host content)
    output ← wrap (codes "failed to execute prove command") (
        execute host work_space (codes "cargo" ∷ codes "openvm" ∷ codes "prove" ∷ codes "app" ∷ [])
        >>= or_raise)
    proof ← cli_read_file host work_space (codes "prover.app.proof")
    app_vk ← cli_read_file host work_space (codes "target/openvm/app.vk")
    estimated_instructions ← get_estimated_instruction_count work_space
    pure (record {
      proof = proof;
      app_vk = app_vk;
      stdout = output;
      estimated_instructions = estimated_instructions;
    })

  unfoldable pub stark_prove : Text → P ProofGeneration
  unfolding setup_execution execute cli_read_file read_bytes get_estimated_instruction_count
  stark_prove content = do
    work_space ← wrap (codes "failed to setup execution") (setup_execution host content)
    output ← wrap (codes "failed to execute prove command") (
        execute host work_space
          (codes "cargo" ∷ codes "openvm" ∷ codes "prove" ∷ codes "stark" ∷ [])
        >>= or_raise)
    proof ← cli_read_file host work_space (codes "prover.stark.proof")
    app_vk ← read_bytes host (codes "/root/.openvm/agg_stark.vk")
    estimated_instructions ← get_estimated_instruction_count work_space
    pure (record {
      proof = proof;
      app_vk = app_vk;
      stdout = output;
      estimated_instructions = estimated_instructions;
    })

  -- the line that `TestRun` returns
  unfoldable pub execution_output : Text → P Text
  unfolding find_line lines
  execution_output output = elim (find_line (codes "Execution output:") (lines output)) [
    | none ↦ raise (plain (codes "execution output not found in the output: " ++ output))
    | some line ↦ pure line
  ]

  unfoldable pub test_run : Text → P Text
  unfolding setup_execution execute execution_output
  test_run content = do
    work_space ← setup_execution host content
    output ←
        execute host work_space (codes "cargo" ∷ codes "openvm" ∷ codes "run" ∷ []) >>= or_raise
    execution_output output
