-- ===== src/BlockProver/Failing.antt =====
-- The error of the loop of `processBlockAsUnit` (cmd/block-prove/main.go) over the traces of a block.
use erigon_risc_v_executable.Prelude.{
  ℕ, suc, ◌-◌, ◌≡◌, refl, ap, subst, List, [], ◌∷◌, ◌++◌, Option, none, some, Option-cases, inl,
  inr, ltb, if◌then◌else◌, Text, arith,
}
use erigon_risc_v_executable.Deps.{Deps}
use erigon_risc_v_executable.Trace.{EvmExecutionState, EvmInstructionMetadata}
use erigon_risc_v_executable.Transpiler.{Transpiler, add_transaction_boundary}
use erigon_risc_v_executable.Transpiler.Effects.{Error, Outcome, ok, err, panic}
use erigon_risc_v_executable.Transpiler.Errors.{Stopped, Outcome-cases, process_execution-stops}
use erigon_risc_v_executable.Transpiler.Step.{
  Snapshots, add_instruction_with_result, result_stack_of, process_from, process_execution,
}
use erigon_risc_v_executable.BlockProver.{
  TraceResult, ProofResult, done, failed, crashed, process_results,
}

-- The loop goes over the results from number `i` on, of `total`, from the first transpiler to the second:
-- errors are left out, and the other traces are translated.
pub data Passes (d : Deps) (total : ℕ)
    : ℕ → List TraceResult → Transpiler → Transpiler → Type 0 where
  over_none : {i : ℕ} {tr : Transpiler} → Passes d total i [] tr tr
  over_error :
      {i : ℕ} {r : TraceResult} {x : Text} {rs : List TraceResult} {tr tr' : Transpiler}
      → r.error ≡ some x
      → Passes d total (suc i) rs tr tr'
      → Passes d total i (r ∷ rs) tr tr'
  over_trace :
      {i : ℕ} {r : TraceResult} {rs : List TraceResult} {snaps : Snapshots} {tr t tr' : Transpiler}
      → r.error ≡ none
      → process_execution d r.state r.instructions tr ≡ ok (snaps, none) t
      → Passes d total (suc i) rs (if ltb i (total - 1) then add_transaction_boundary t else t) tr'
      → Passes d total i (r ∷ rs) tr tr'

-- the transaction whose trace cannot be translated
pub record FailsIn (d : Deps) (i total : ℕ) (rs : List TraceResult) (hash : Text) (e : Error)
    (first : Transpiler) : Type 0 where
  pub before : List TraceResult
  pub failing : TraceResult
  pub behind : List TraceResult
  pub parts : rs ≡ before ++ failing ∷ behind
  pub reached : Transpiler
  pub passes : Passes d total i before first reached
  pub no_error : failing.error ≡ none
  pub named : failing.tx_hash ≡ hash
  pub ended : Transpiler
  pub stopped : Stopped d failing.state failing.instructions e reached ended

returned-err :
    {A : Type 0} {a : A} {e : Error} {t t' : Transpiler}
    → (let o : Outcome A = ok a t in o ≡ err e t')
    → ⊥
returned-err h = ground arith

panic-err :
    {A : Type 0} {e : Error} {t : Transpiler} → (let o : Outcome A = panic in o ≡ err e t) → ⊥
panic-err h = ground arith

done-failed :
    {ps : List ProofResult} {t : Transpiler} {hash : Text} {e : Error}
    → done ps t ≡ failed hash e
    → ⊥
done-failed h = ground arith

crashed-failed : {hash : Text} {e : Error} → crashed ≡ failed hash e → ⊥
crashed-failed h = ground arith

failed_with :
    {hash hash' : Text} {x e : Error} → failed hash x ≡ failed hash' e → (hash ≡ hash') × (x ≡ e)
failed_with h = (ground arith, ground arith)

module _ (d : Deps) where
  process_from-returns :
      (state : Option EvmExecutionState) (i : ℕ) (snaps : Snapshots)
      (ops : List EvmInstructionMetadata) (e : Error) (tr t : Transpiler)
      → process_from d state i snaps ops tr ≡ err e t
      → ⊥
  unfolding process_from
  process_from-returns state i snaps [] e tr t h = ground arith
  process_from-returns state i snaps (op ∷ rest) e tr t h =
      elim (Option-cases (result_stack_of op rest)) [
        | inl missing ↦ absurd (panic-err (rw (missing, process_from) at h))
        | inr (r, found) ↦ elim (Outcome-cases (add_instruction_with_result d op state r tr)) [
          | inl (_, t', made) ↦
              process_from-returns state (suc i) _ rest e t' t (rw (found, made, process_from) at h)
          | inr (inl (x, t', bad)) ↦ absurd (returned-err (rw (found, bad, process_from) at h))
          | inr (inr panicked) ↦ absurd (panic-err (rw (found, panicked, process_from) at h))
        ]
      ]

  after_error :
      {i total : ℕ} {r : TraceResult} {x : Text} {rest : List TraceResult} {hash : Text} {e : Error}
      {tr : Transpiler}
      → r.error ≡ some x
      → FailsIn d (suc i) total rest hash e tr
      → FailsIn d i total (r ∷ rest) hash e tr
  after_error {r} bad f = record {
    before = r ∷ f.before;
    failing = f.failing;
    behind = f.behind;
    parts = ap (λ xs. r ∷ xs) f.parts;
    reached = f.reached;
    passes = over_error bad f.passes;
    no_error = f.no_error;
    named = f.named;
    ended = f.ended;
    stopped = f.stopped;
  }

  after_trace :
      {i total : ℕ} {r : TraceResult} {rest : List TraceResult} {hash : Text} {e : Error}
      {snaps : Snapshots} {tr t : Transpiler}
      → r.error ≡ none
      → process_execution d r.state r.instructions tr ≡ ok (snaps, none) t
      → FailsIn d
          (suc i)
          total
          rest
          hash
          e
          (if ltb i (total - 1) then add_transaction_boundary t else t)
      → FailsIn d i total (r ∷ rest) hash e tr
  after_trace {r} good ran f = record {
    before = r ∷ f.before;
    failing = f.failing;
    behind = f.behind;
    parts = ap (λ xs. r ∷ xs) f.parts;
    reached = f.reached;
    passes = over_trace good ran f.passes;
    no_error = f.no_error;
    named = f.named;
    ended = f.ended;
    stopped = f.stopped;
  }

  -- When the loop over the traces of a block fails, the transaction that its error names is one of
  -- the block, its trace is not an error, and it is the first that cannot be translated: in front
  -- of it there are traces that are errors, which are left out, and traces that were translated
  -- without an error, each from the transpiler that the one before left, with its boundary if it
  -- has one; and from the transpiler that they lead to, some item of the trace fails with the error
  -- that comes back.
  pub process_results-FailsIn :
      (i total : ℕ) (rs : List TraceResult) (tr : Transpiler) (proofs : List ProofResult)
      (hash : Text) (e : Error)
      → process_results d i total rs tr proofs ≡ failed hash e
      → FailsIn d i total rs hash e tr
  unfolding process_results process_execution
  process_results-FailsIn i total [] tr proofs hash e h = absurd (done-failed h)
  process_results-FailsIn i total (r ∷ rest) tr proofs hash e h = elim (Option-cases r.error) [
    | inr (x, bad) ↦ after_error bad (
        process_results-FailsIn (suc i) total rest tr proofs hash e
          (rw (bad, process_results) at h))
    | inl good ↦ elim (Outcome-cases (process_execution d r.state r.instructions tr)) [
      | inl ((snaps, none), t, ran) ↦ after_trace good ran (
          process_results-FailsIn (suc i) total rest _ _ hash e
            (rw (good, ran, process_results) at h))
      | inl ((snaps, some x), t, ran) ↦
          let (same, same_error) = failed_with (rw (good, ran, process_results) at h) in
          record {
            before = [];
            failing = r;
            behind = rest;
            parts = refl;
            reached = tr;
            passes = over_none;
            no_error = good;
            named = same;
            ended = t;
            stopped =
                subst (λ y. Stopped d r.state r.instructions y tr t) same_error
                  (process_execution-stops d r.state r.instructions tr t snaps x ran);
          }
      | inr (inl (x, t, bad)) ↦ absurd (process_from-returns r.state 0 [] r.instructions x tr t bad)
      | inr (inr panicked) ↦ absurd (crashed-failed (rw (good, panicked, process_results) at h))
    ]
  ]
