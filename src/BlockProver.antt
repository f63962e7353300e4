-- ===== src/BlockProver.antt =====
-- cmd/block-prove/main.go: the jobs of a block, the goroutines that trace them, at most five at a
-- time, and the loop that transpiles the traces into one program. The node's debug API and its
-- global registry of tracers are a parameter: `api` takes the registrations, the newest first, and
-- the hash of a transaction.
pub mod Jobs
pub mod Schedule
pub mod Progress
pub mod Results
pub mod Boundary
pub mod Program
pub mod Handler
pub mod Rendered
pub mod Failing
use erigon_risc_v_executable.Prelude.{
  ℕ, zero, suc, ◌+◌, ◌-◌, List, [], ◌∷◌, ◌++◌, Option, none, some, Bool, true, false, Text, codes,
  ltb, leb, ◌&&◌, length, get_elem?, set, update, map, replicate, ℤ, pos, negsuc, if◌then◌else◌,
}
use erigon_risc_v_executable.Deps.{Deps}
use erigon_risc_v_executable.Trace.{EvmExecutionState, EvmInstructionMetadata}
use erigon_risc_v_executable.Tracer.{StateTracer}
use erigon_risc_v_executable.Transpiler.{Transpiler, add_transaction_boundary}
use erigon_risc_v_executable.Transpiler.Effects.{Error, Outcome, ok, err, panic}
use erigon_risc_v_executable.Transpiler.Step.{process_execution}

pub record TraceJob : Type 0 where
  pub index : ℕ
  pub tx_index : ℕ
  pub tx_hash : Text

pub record TraceResult : Type 0 where
  pub index : ℕ
  pub tx_index : ℕ
  pub tx_hash : Text
  pub instructions : List EvmInstructionMetadata
  pub state : Option EvmExecutionState
  pub error : Option Text

-- `maxTxs > 0 && i >= maxTxs`
unfoldable pub is_limited : ℤ → ℕ → Bool
is_limited (pos n) i = ltb 0 n && leb n i
is_limited (negsuc n) i = false

-- The loop over the block's transactions from number `i` on, `n` jobs before it. A transaction is
-- its hash, `none` an entry of another type.
unfoldable pub select_from : ℤ → ℕ → ℕ → List (Option Text) → List TraceJob
unfolding is_limited
select_from max_txs i n [] = []
select_from max_txs i n (tx ∷ txs) = elim (is_limited max_txs i) [
  | true ↦ []
  | false ↦ elim tx [
    | none ↦ select_from max_txs (suc i) n txs
    | some h ↦
        record { index = n; tx_index = i; tx_hash = h } ∷ select_from max_txs (suc i) (suc n) txs
  ]
]

unfoldable pub select_jobs : ℤ → List (Option Text) → List TraceJob
unfolding select_from
select_jobs max_txs txs = select_from max_txs 0 0 txs

-- What a call of `debugAPI.TraceTransaction` does, settled by the registrations that its lookup finds:
-- the tracer that it will hand to the callback of one of them, named by its job, and the error that
-- it will return.
pub record ApiRun : Type 0 where
  pub receiver : ℕ
  pub tracer : Option StateTracer
  pub error : Option Text

-- where a goroutine stands: before `semaphore <-`, before `RegisterLookup`, before the call of the
-- API, in that call, where the lookup is behind it and the callback before it, before the store in
-- `results`, before the release, and after it
pub data Stage : Type 0 where
  waiting acquired registered : Stage
  running : ApiRun → Stage
  called stored finished : Stage

-- `tracer_result` and `api_error` are the variables `tracerResult` and `err` of its `traceTransaction`.
pub record Goroutine : Type 0 where
  pub job : TraceJob
  pub stage : Stage
  pub tracer_result : Option StateTracer
  pub api_error : Option Text

-- `semaphore` is the number of slots taken.
pub record Tracing : Type 0 where
  pub registrations : List ℕ
  pub semaphore : ℕ
  pub goroutines : List Goroutine
  pub results : List TraceResult

abbrev pub max_concurrent : ℕ
max_concurrent = 5

unfoldable pub spawn : TraceJob → Goroutine
spawn j = record { job = j; stage = waiting; tracer_result = none; api_error = none }

abbrev pub zero_result : TraceResult
zero_result = record {
  index = 0;
  tx_index = 0;
  tx_hash = [];
  instructions = [];
  state = none;
  error = none;
}

-- the start: every goroutine is there, which one runs when is the scheduler's choice
unfoldable pub start_tracing : List TraceJob → Tracing
unfolding spawn
start_tracing jobs = record {
  registrations = [];
  semaphore = 0;
  goroutines = map spawn jobs;
  results = replicate (length jobs) zero_result;
}

-- the end of `traceTransaction` and the result that the goroutine builds of it
unfoldable pub trace_result : TraceJob → Option StateTracer → Option Text → TraceResult
trace_result j tracer (some e) = record {
  index = j.index;
  tx_index = j.tx_index;
  tx_hash = j.tx_hash;
  instructions = [];
  state = none;
  error = some e;
}
trace_result j none none = record {
  index = j.index;
  tx_index = j.tx_index;
  tx_hash = j.tx_hash;
  instructions = [];
  state = none;
  error = some (codes "no tracer result received");
}
trace_result j (some t) none = record {
  index = j.index;
  tx_index = j.tx_index;
  tx_hash = j.tx_hash;
  instructions = t.evm_instructions;
  state = t.execution_state;
  error = none;
}

-- the callback: `tracerResult = newTracer`
unfoldable pub receive : Option StateTracer → Goroutine → Goroutine
receive none g = g
receive (some t) g = record g { tracer_result = some t }

abbrev pub move_to : Stage → Goroutine → Goroutine
move_to stage g = record g { stage = stage }

abbrev pub return_api : Option Text → Goroutine → Goroutine
return_api e g = record g { api_error = e; stage = called }

module _ (api : List ℕ → Text → ApiRun) where
  -- One step of goroutine `i`, whose stage is given; `none` when it is blocked or has ended.
  unfoldable pub advance_at : ℕ → Goroutine → Stage → Tracing → Option Tracing
  unfolding trace_result receive
  advance_at i g waiting s =
      if ltb s.semaphore max_concurrent
      then some (record s {
        semaphore = s.semaphore + 1;
        goroutines = update i (move_to acquired) s.goroutines;
      })
      else none
  advance_at i g acquired s = some (record s {
    registrations = g.job.index ∷ s.registrations;
    goroutines = update i (move_to registered) s.goroutines;
  })
  advance_at i g registered s = some (record s {
    goroutines = update i (move_to (running (api s.registrations g.job.tx_hash))) s.goroutines;
  })
  advance_at i g (running run) s = some (record s {
    goroutines =
        update i (return_api run.error) (update run.receiver (receive run.tracer) s.goroutines);
  })
  advance_at i g called s = some (record s {
    results = set s.results g.job.index (trace_result g.job g.tracer_result g.api_error);
    goroutines = update i (move_to stored) s.goroutines;
  })
  advance_at i g stored s = some (record s {
    semaphore = s.semaphore - 1;
    goroutines = update i (move_to finished) s.goroutines;
  })
  advance_at i g finished s = none

  unfoldable pub advance : ℕ → Tracing → Option Tracing
  unfolding advance_at
  advance i s = elim (get_elem? s.goroutines i) [ none ↦ none | some g ↦ advance_at i g g.stage s ]

-- `ProofResult`; the loop leaves `AppVK` and `Proof` empty.
pub record ProofResult : Type 0 where
  pub transaction_hash : Text
  pub transaction_index : ℕ
  pub instruction_count : ℕ

unfoldable pub proof_result : TraceResult → ProofResult
proof_result r = record {
  transaction_hash = r.tx_hash;
  transaction_index = r.tx_index + 1;
  instruction_count = length r.instructions;
}

pub data Block : Type 0 where
  done : List ProofResult → Transpiler → Block
  -- "failed to transpile transaction %s: %v"
  failed : Text → Error → Block
  crashed : Block

-- The loop over the results from number `i` on, of `total`.
unfoldable pub process_results :
    Deps → ℕ → ℕ → List TraceResult → Transpiler → List ProofResult → Block
unfolding proof_result
process_results d i total [] tr proofs = done proofs tr
process_results d i total (r ∷ rest) tr proofs = elim r.error [
  | some _ ↦ process_results d (suc i) total rest tr proofs
  | none ↦ elim (process_execution d r.state r.instructions tr) [
    | ok (_, none) t ↦
        process_results d (suc i) total rest
          (if ltb i (total - 1) then add_transaction_boundary t else t)
          (proofs ++ proof_result r ∷ [])
    | ok (_, some e) t ↦ failed r.tx_hash e
    | err e t ↦ failed r.tx_hash e
    | panic ↦ crashed
  ]
]

-- `TotalEvmInstructions`
unfoldable pub total_evm_instructions : List ProofResult → ℕ
total_evm_instructions [] = 0
total_evm_instructions (p ∷ ps) = p.instruction_count + total_evm_instructions ps
