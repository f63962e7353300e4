-- ===== src/Tests/Provers.antt =====
-- The theorems on proving, verifying and running, at a system on which every call succeeds.
use erigon_risc_v_executable.Prelude.{
  ℕ, ◌<◌, ◌≡◌, ◌↔◌, refl, ◌⊎◌, List, [], ◌∷◌, none, some, Text, codes, All, true, false, get_elem?,
}
use erigon_risc_v_executable.Assembly.{Instruction}
use erigon_risc_v_executable.Compiler.{join}
use erigon_risc_v_executable.Emit.{ebreak_instr}
use erigon_risc_v_executable.Prover.{given, ProverError, ok, fail}
use erigon_risc_v_executable.Prover.Prove.{prove, stark_prove, execution_output}
use erigon_risc_v_executable.Prover.Verify.{verify_from_results}
use erigon_risc_v_executable.Prover.Lines.{lines, has_prefix}
use erigon_risc_v_executable.Prover.Stops.{Ends, prove-Ends}
use erigon_risc_v_executable.Prover.Outcomes.{Post, Proved, prove-Proved}
use erigon_risc_v_executable.Prover.Cleanup.{IsTidy, verify_from_results-IsTidy}
use erigon_risc_v_executable.Prover.Accepted.{Accepts, verify_from_results_iff}
use erigon_risc_v_executable.Prover.Output.{line_prefix, execution_output-lines}
use erigon_risc_v_executable.Runner.Execute.{Unicorn, run_hooked}
use erigon_risc_v_executable.Runner.Snapshots.{RunEnds, run_hooked-RunEnds}
use erigon_risc_v_executable.Tests.{test_deps, test_host, test_machine, test_linked}

prove-Ends_example :
    Ends test_host [] (prove test_host (codes "nop") [])
    × Ends test_host [] (stark_prove test_host (codes "nop") [])
prove-Ends_example = prove-Ends test_host (codes "nop") []

prove-Proved_example :
    Post test_host
      (Proved test_host
        (codes "app")
        (codes "prover.app.proof")
        (λ ws. test_host.join_path (ws ∷ codes "target/openvm/app.vk" ∷ []))
        (codes "nop"))
      (prove test_host (codes "nop") [])
    × Post test_host
        (Proved test_host
          (codes "stark")
          (codes "prover.stark.proof")
          (λ ws. codes "/root/.openvm/agg_stark.vk")
          (codes "nop"))
        (stark_prove test_host (codes "nop") [])
prove-Proved_example = prove-Proved test_host (codes "nop") []

verify_from_results-IsTidy_example : IsTidy test_host [] [] (verify_from_results test_host [] [])
verify_from_results-IsTidy_example = verify_from_results-IsTidy test_host [] []

verify_from_results_iff_example :
    let ((result, e), h') = verify_from_results test_host (codes "r.json") [] in
    (result.valid ≡ true) ↔ Accepts test_host (codes "r.json") [] result.stdout h'
verify_from_results_iff_example = verify_from_results_iff test_host (codes "r.json") []

-- On this system the verification accepts.
verified_run : (verify_from_results test_host (codes "r.json") []).0.0.valid ≡ true
unfolding verify_from_results
verified_run = refl

abbrev test_output : Text
test_output = codes "Total cells: 1"

execution_output-lines_example :
    (join (10 ∷ []) (lines test_output) ≡ test_output)
    × (((line : Text) × (i : ℕ) × (execution_output test_host test_output [] ≡ ok line [])
          × (get_elem? (lines test_output) i ≡ some line)
          × (has_prefix line line_prefix ≡ true)
          × ((k : ℕ) (l : Text)
              → k < i
              → get_elem? (lines test_output) k ≡ some l
              → has_prefix l line_prefix ≡ false))
        ⊎ ((e : ProverError) × (execution_output test_host test_output [] ≡ fail e [])
            × All (λ l. has_prefix l line_prefix ≡ false) (lines test_output)))
execution_output-lines_example = execution_output-lines test_host test_output []

abbrev test_unicorn : Unicorn
test_unicorn = record {
  error = λ c. none;
  fetch_error = λ n. none;
  pc_error = λ n. none;
  mem_write = λ a bytes memory. memory;
  program = λ memory entry. [];
  linked = test_linked;
  create_temp = none;
  write_temp = λ bytes. none;
  open_elf = λ bytes. given (record { sections = []; entry = 65536 });
}

abbrev test_program : List Instruction
test_program = ebreak_instr ∷ ebreak_instr ∷ []

run_hooked-RunEnds_example :
    RunEnds test_deps test_unicorn 0 test_program test_machine []
      (run_hooked test_deps test_unicorn 0 test_program test_machine [])
run_hooked-RunEnds_example =
    run_hooked-RunEnds test_deps test_unicorn 0 test_program test_machine []
