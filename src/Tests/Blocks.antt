-- ===== src/Tests/Blocks.antt =====
-- The theorems on blocks, at small blocks.
use erigon_risc_v_executable.Prelude.{
  ℕ, ◌≤◌, ◌<◌, ◌≡◌, refl, ◌⊎◌, inl, inr, List, [], ◌∷◌, Option, none, some, Text, codes, true,
  false, get_elem?, map, pos, none-some, some-injective, zero, suc, ap, sym, if◌then◌else◌, text_eq,
}
use erigon_risc_v_executable.Assembly.{sp, s2}
use erigon_risc_v_executable.Machine.{Machine, Linked, exec}
use erigon_risc_v_executable.Compiler.{to_tool_chain_compatible_assembly}
use erigon_risc_v_executable.Transpiler.{Transpiler, new_transpiler, to_assembly}
use erigon_risc_v_executable.Transpiler.Does.{IsWellFormed, Covers}
use erigon_risc_v_executable.Prover.{given}
use erigon_risc_v_executable.Tracer.{new_state_tracer}
use erigon_risc_v_executable.BlockProver.{
  TraceJob, TraceResult, ApiRun, Tracing, done, proof_result, process_results, start_tracing,
  advance, select_jobs,
}
use erigon_risc_v_executable.BlockProver.Jobs.{select_jobs_iff}
use erigon_risc_v_executable.BlockProver.Schedule.{
  Run, here, next, IsOver, remaining, tracing_now, tracing_now-le,
}
use erigon_risc_v_executable.BlockProver.Progress.{progress}
use erigon_risc_v_executable.BlockProver.Results.{IsNewest, alone, results-map}
use erigon_risc_v_executable.BlockProver.Boundary.{successes, Blocks}
use erigon_risc_v_executable.BlockProver.Program.{process_results-runs}
use erigon_risc_v_executable.BlockProver.Handler.{BlockOptions, Encoder, process_traced}
use erigon_risc_v_executable.BlockProver.Rendered.{Finishes, process_traced-Finishes}
use erigon_risc_v_executable.BlockProver.Failing.{FailsIn, process_results-FailsIn}
use erigon_risc_v_executable.Opcode.{other}
use erigon_risc_v_executable.Transpiler.Effects.{unimplemented}
use erigon_risc_v_executable.Transpiler.Step.{process_execution}
use erigon_risc_v_executable.Tests.{test_deps, test_state, test_ops, bad_ops, test_host}
use erigon_risc_v_executable.Tests.Traces.{test_state-IsFilled, test_ops-AllReady}

abbrev test_job : TraceJob
test_job = record { index = 0; tx_index = 1; tx_hash = codes "0xa1" }

-- the second transaction of a block of three, of which the first has another type and the third is
-- past the limit
abbrev test_txs : List (Option Text)
test_txs = none ∷ some (codes "0xa1") ∷ some (codes "0xa2") ∷ []

select_jobs_iff_example :
    ((k : ℕ) (j : TraceJob)
      → get_elem? (select_jobs (pos 2) test_txs) k ≡ some j
      → (j.index ≡ k)
        × (k ≤ j.tx_index)
        × (j.tx_index < 2)
        × (get_elem? test_txs j.tx_index ≡ some (some j.tx_hash)))
    × ((k1 k2 : ℕ) (j1 j2 : TraceJob)
        → get_elem? (select_jobs (pos 2) test_txs) k1 ≡ some j1
        → get_elem? (select_jobs (pos 2) test_txs) k2 ≡ some j2
        → k1 < k2
        → j1.tx_index < j2.tx_index)
    × ((i : ℕ) (h : Text)
        → get_elem? test_txs i ≡ some (some h)
        → i < 2
        → (k : ℕ) × (get_elem? (select_jobs (pos 2) test_txs) k
            ≡ some (record { index = k; tx_index = i; tx_hash = h })))
select_jobs_iff_example = select_jobs_iff (pos 2) test_txs

select_jobs_run : select_jobs (pos 2) test_txs ≡ test_job ∷ []
unfolding select_jobs
select_jobs_run = refl

-- an API that hands no tracer over
abbrev test_api : List ℕ → Text → ApiRun
test_api others h = record { receiver = 0; tracer = none; error = some (codes "timeout") }

abbrev test_start : Tracing
test_start = start_tracing (test_job ∷ [])

test_run : (s : Tracing) × Run test_api test_start 6 s × IsOver s
unfolding start_tracing advance
test_run = (
  _,
  next (next (next (next (next (next here 0 refl) 0 refl) 0 refl) 0 refl) 0 refl) 0 refl,
  refl,
)

tracing_now-le_example :
    (tracing_now test_run.0 ≤ 5) × (test_run.0.semaphore ≡ tracing_now test_run.0)
tracing_now-le_example = tracing_now-le test_api (test_job ∷ []) test_run.1

progress_example :
    (IsOver test_start ⊎ ((i : ℕ) × (s' : Tracing) × (advance test_api i test_start ≡ some s')))
    × ((s' : Tracing) × Run test_api test_start (remaining test_start) s' × IsOver s')
progress_example = progress test_api (test_job ∷ []) here

-- two results: a failed tracing, and the trace of the tests
abbrev test_results : List TraceResult
test_results =
    record {
      index = 0;
      tx_index = 0;
      tx_hash = codes "0xa0";
      instructions = [];
      state = none;
      error = some (codes "timeout");
    }
    ∷ record {
      index = 1;
      tx_index = 1;
      tx_hash = codes "0xa1";
      instructions = test_ops;
      state = some test_state;
      error = none;
    }
    ∷ []

process_results-runs_example :
    (tr : Transpiler) × (process_results test_deps 0 2 test_results new_transpiler []
      ≡ done (map proof_result (successes test_results)) tr)
    × IsWellFormed test_deps tr
    × ((l : Linked)
        → Covers l tr.data_section
        → (m : Machine) → m.regs sp ≡ m.regs s2
        → (m' : Machine) × (exec l tr.instructions m ≡ some m')
          × Blocks l (m.regs s2) test_results tr.instructions m m')
process_results-runs_example = process_results-runs test_deps test_results (
  inl (codes "timeout", refl),
  (inr (refl, test_state, refl, test_state-IsFilled, test_ops-AllReady), tt),
)

abbrev test_options : BlockOptions
test_options = record {
  block_number = 7;
  debug_assembly = true;
  assembly_file = codes "a.s";
  debug_mode = false;
  skip_proof = false;
  use_stark_proof = true;
}

abbrev pub test_encoder : Encoder
test_encoder = record { mappings = λ ms. given []; block_result = λ r. given (r.block_number ∷ []) }

process_traced-Finishes_example :
    (tr : Transpiler) × (content : Text) × (process_results test_deps 0 2 test_results
        new_transpiler []
      ≡ done (map proof_result (successes test_results)) tr)
    × (to_tool_chain_compatible_assembly test_deps [] (to_assembly tr) ≡ some content)
    × Finishes test_deps [] test_host test_encoder test_options content
        (map proof_result (successes test_results))
        (process_traced test_deps [] test_host test_encoder test_options test_results [])
process_traced-Finishes_example =
    process_traced-Finishes test_deps [] test_host test_encoder test_options test_results [] (
      inl (codes "timeout", refl),
      (inr (refl, test_state, refl, test_state-IsFilled, test_ops-AllReady), tt),
    )

-- an API that hands the tracer to the newest registration
abbrev newest_api : List ℕ → Text → ApiRun
newest_api others h = record {
  receiver = elim others [ [] ↦ 0 | k ∷ ks ↦ k ];
  tracer = some (record new_state_tracer {
    evm_instructions = if text_eq h (codes "0xa1") then test_ops else bad_ops;
  });
  error = none;
}

newest_api-IsNewest : IsNewest newest_api
newest_api-IsNewest = record {
  to_newest = λ k others h. refl;
  same_tracer = λ k others h. refl;
  same_error = λ k others h. refl;
}

abbrev two_jobs : List TraceJob
two_jobs = test_job ∷ record { index = 1; tx_index = 2; tx_hash = codes "0xa2" } ∷ []

two_jobs-indexed : (k : ℕ) (j : TraceJob) → get_elem? two_jobs k ≡ some j → j.index ≡ k
two_jobs-indexed zero j at = ap (λ x. x.index) (some-injective (sym at))
two_jobs-indexed (suc zero) j at = ap (λ x. x.index) (some-injective (sym at))
two_jobs-indexed (suc (suc k)) j at = absurd (none-some at)

-- Both trace at a time, and each calls the API right after its registration.
two_run : (s : Tracing) × Run newest_api (start_tracing two_jobs) 12 s
unfolding start_tracing advance
two_run = (
  _,
  next
      (next
        (next
          (next
            (next
              (next
                (next (next (next (next (next (next here 0 refl) 1 refl) 0 refl) 0 refl) 1 refl) 1
                  refl)
                1 refl)
              0 refl)
            1 refl)
          0 refl)
        0 refl)
      1 refl,
)

results-map_example : two_run.0.results ≡ map (alone newest_api) two_jobs
unfolding start_tracing advance two_run
results-map_example =
    results-map newest_api two_jobs newest_api-IsNewest two_jobs-indexed two_run.1
      ((((((((((((tt, tt), tt), tt), ([], refl)), tt), (0 ∷ [], refl)), tt), tt), tt), tt), tt), tt)
      refl

-- the steps of the goroutines that are named, in turn
play : List ℕ → Tracing → Tracing
unfolding advance
play [] s = s
play (i ∷ is) s = elim (advance newest_api i s) [ none ↦ play is s | some s' ↦ play is s' ]

-- Two goroutines that register before either calls the API: the first never gets its tracer.
racing_jobs :
    map
      (λ r. r.error)
      (play (0 ∷ 1 ∷ 0 ∷ 1 ∷ 0 ∷ 1 ∷ 0 ∷ 1 ∷ 0 ∷ 1 ∷ []) (start_tracing two_jobs)).results
    ≡ some (codes "no tracer result received") ∷ none ∷ []
unfolding play start_tracing
racing_jobs = refl

-- a trace that is translated, and one with an opcode that the transpiler does not know
abbrev failing_results : List TraceResult
failing_results =
    record {
      index = 0;
      tx_index = 0;
      tx_hash = codes "0xa0";
      instructions = test_ops;
      state = some test_state;
      error = none;
    }
    ∷ record {
      index = 1;
      tx_index = 1;
      tx_hash = codes "0xa1";
      instructions = bad_ops;
      state = some test_state;
      error = none;
    }
    ∷ []

process_results-FailsIn_example :
    FailsIn test_deps 0 2 failing_results (codes "0xa1") (unimplemented (other 12)) new_transpiler
unfolding process_results process_execution
process_results-FailsIn_example =
    process_results-FailsIn test_deps 0 2 failing_results new_transpiler [] (codes "0xa1")
      (unimplemented (other 12)) refl
