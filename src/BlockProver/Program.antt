-- ===== src/BlockProver/Program.antt =====
-- The program that the loop of `processBlockAsUnit` (cmd/block-prove/main.go) makes of the traces of
-- a block.
use erigon_risc_v_executable.Prelude.{
  ℕ, suc, ◌+◌, ◌-◌, ◌≤◌, ◌≡◌, refl, sym, ap, subst, ◌∙◌, inl, inr, List, [], ◌∷◌, ◌++◌,
  append_assoc, append-nil, none, some, length, map, All, All-append, ltb, true, false, lt→ltb,
  le→ltb, arith,
}
use erigon_risc_v_executable.Assembly.{Instruction, sp, s2, has_callee, IsNamed}
use erigon_risc_v_executable.Deps.{Deps}
use erigon_risc_v_executable.Trace.{EvmExecutionState}
use erigon_risc_v_executable.Sections.{DataSection}
use erigon_risc_v_executable.Sections.Invariant.{IsExtended-le}
use erigon_risc_v_executable.Sections.Storage.{new_storage_section-IsStored}
use erigon_risc_v_executable.Machine.{Machine, Linked, exec}
use erigon_risc_v_executable.Transpiler.{
  Transpiler, production_config, new_transpiler, add_transaction_boundary,
}
use erigon_risc_v_executable.Transpiler.Does.{IsWellFormed, Covers, Extends}
use erigon_risc_v_executable.Transpiler.Moves.{trace_pops, trace_pushes, process_execution-Extends}
use erigon_risc_v_executable.Transpiler.Effects.{ok}
use erigon_risc_v_executable.Transpiler.Step.{process_execution, Snapshots}
use erigon_risc_v_executable.Transpiler.Run.{new_transpiler-IsWellFormed}
use erigon_risc_v_executable.BlockProver.{
  TraceResult, ProofResult, proof_result, done, process_results,
}
use erigon_risc_v_executable.BlockProver.Boundary.{
  boundary_code, CanRun, successes, Blocks, skipped, last, between, over, Blocks-exec,
  boundary_runs,
}

successes-cons :
    (r : TraceResult) (rest : List TraceResult)
    → r.error ≡ none
    → successes (r ∷ rest) ≡ r ∷ successes rest
unfolding successes
successes-cons r rest good =
    ap
      (λ e. elim e as (λ _. List TraceResult) [
        | some _ ↦ successes rest
        | none ↦ r ∷ successes rest
      ])
      good

-- A trace that is translated and is not the last is followed by a boundary.
results_step :
    (d : Deps) (i total : ℕ) (r : TraceResult) (rest : List TraceResult) (tr t : Transpiler)
    (proofs : List ProofResult) (snaps : Snapshots) {st : EvmExecutionState}
    → r.error ≡ none
    → r.state ≡ some st
    → process_execution d (some st) r.instructions tr ≡ ok (snaps, none) t
    → ltb i (total - 1) ≡ true
    → process_results d i total (r ∷ rest) tr proofs
      ≡ process_results d
          (suc i)
          total
          rest
          (add_transaction_boundary t)
          (proofs ++ proof_result r ∷ [])
unfolding process_results
results_step d i total r rest tr t proofs snaps good held runs inside =
    rw (good, held, runs, inside, process_results) refl

module _ (d : Deps) where
  add_transaction_boundary-IsWellFormed :
      (tr : Transpiler) → IsWellFormed d tr → IsWellFormed d (add_transaction_boundary tr)
  unfolding add_transaction_boundary
  add_transaction_boundary-IsWellFormed tr h = record {
    indexed = h.indexed;
    stored = new_storage_section-IsStored d _;
  }

  -- `tr'` is `tr` with the code of the transactions.
  pub record Continues (rs : List TraceResult) (tr tr' : Transpiler) : Type 0 where
    pub code : List Instruction
    pub appended : tr'.instructions ≡ tr.instructions ++ code
    pub well_formed : IsWellFormed d tr'
    pub grown : length tr.data_section.values ≤ length tr'.data_section.values
    pub named : (l : Linked) → Covers l tr'.data_section → All IsNamed code
    pub blocks :
        (l : Linked)
        → Covers l tr'.data_section
        → (m : Machine) → m.regs sp ≡ m.regs s2
        → (m' : Machine) × Blocks l (m.regs s2) rs code m m'

  Covers-le :
      (l : Linked) (ds ds' : DataSection)
      → length ds.values ≤ length ds'.values
      → Covers l ds'
      → Covers l ds
  Covers-le l ds ds' le cover i h = cover i (omega (arith, le))

  Continues-boundary :
      {r : TraceResult} {rest : List TraceResult} {tr t tr' : Transpiler}
      → Extends d (trace_pops r.instructions) (trace_pushes r.instructions) tr t
      → r.error ≡ none
      → Continues rest (add_transaction_boundary t) tr'
      → Continues (r ∷ rest) tr tr'
  unfolding add_transaction_boundary has_callee
  Continues-boundary {r} {rest} {t} {tr'} x good c = record {
    code = x.code ++ (boundary_code ++ c.code);
    appended =
        c.appended
        ∙ rw x.appended (
            append_assoc (_ ++ x.code) boundary_code c.code
            ∙ append_assoc _ x.code (boundary_code ++ c.code));
    well_formed = c.well_formed;
    grown = omega (arith, IsExtended-le x.grown, c.grown);
    named = λ l cover.
        All-append IsNamed x.code _
          (x.balanced l (Covers-le l t.data_section tr'.data_section c.grown cover)).named
          (All-append IsNamed boundary_code c.code (refl, (refl, (refl, tt))) (c.named l cover));
    blocks = λ l cover m base.
        let (m1, go, moved, kept) =
          (x.balanced l (Covers-le l t.data_section tr'.data_section c.grown cover)).runs m in
        let (m2, boundary, (s2_kept, emptied)) = boundary_runs l m1 in
        let (m', more) = c.blocks l cover m2 (emptied ∙ sym s2_kept) in
        (
          m',
          between good (refl, base) (record { runs = go; moved = moved }) boundary
              (subst (λ b. Blocks l b rest c.code m2 m') (s2_kept ∙ kept) more),
        );
  }

  pub process_results-Continues :
      (i total : ℕ) (rs : List TraceResult) (tr : Transpiler) (proofs : List ProofResult)
      → total ≡ i + length rs
      → All CanRun rs
      → tr.config ≡ production_config
      → IsWellFormed d tr
      → (tr' : Transpiler) × (process_results d i total rs tr proofs
          ≡ done (proofs ++ map proof_result (successes rs)) tr')
        × Continues rs tr tr'
  unfolding process_results successes add_transaction_boundary
  process_results-Continues i total [] tr proofs many can prod inv = (
    tr,
    ap (λ ps. done ps tr) (sym (append-nil proofs)),
    record {
      code = [];
      appended = sym (append-nil tr.instructions);
      well_formed = inv;
      grown = omega arith;
      named = λ l cover. tt;
      blocks = λ l cover m base. (m, over);
    },
  )
  process_results-Continues i total (r ∷ rest) tr proofs many (inl (e, bad), can) prod inv =
      let (tr', runs, c) =
        process_results-Continues (suc i) total rest tr proofs (omega (arith, many)) can prod inv in
      (
        tr',
        rw (bad, process_results, successes) runs,
        record {
          code = c.code;
          appended = c.appended;
          well_formed = c.well_formed;
          grown = c.grown;
          named = c.named;
          blocks = λ l cover m base. let (m', b) = c.blocks l cover m base in (m', skipped e bad b);
        },
      )
  process_results-Continues i total (r ∷ []) tr proofs many
        (inr (good, st, held, filled, ready), can) prod inv =
      let (snaps, t, runs, x) =
        process_execution-Extends d st filled r.instructions tr ready prod inv in
      let outside : ltb i (total - 1) ≡ false = le→ltb i (total - 1) (omega (arith, many)) in
      (
        t,
        rw (good, held, runs, outside, process_results, successes) refl,
        record {
          code = x.code;
          appended = x.appended;
          well_formed = x.well_formed;
          grown = IsExtended-le x.grown;
          named = λ l cover. (x.balanced l cover).named;
          blocks = λ l cover m base.
              let (m', go, moved, _) = (x.balanced l cover).runs m in
              (m', last good (refl, base) (record { runs = go; moved = moved }));
        },
      )
  process_results-Continues i total (r ∷ r2 ∷ rest) tr proofs many
        (inr (good, st, held, filled, ready), can) prod inv =
      let (snaps, t, runs, x) =
        process_execution-Extends d st filled r.instructions tr ready prod inv in
      let t1 = add_transaction_boundary t in
      let inside : ltb i (total - 1) ≡ true = lt→ltb i (total - 1) (omega (arith, many)) in
      let (tr', later, c) =
        process_results-Continues (suc i) total (r2 ∷ rest) t1 (proofs ++ proof_result r ∷ [])
          (omega (arith, many)) can (x.same_config ∙ prod)
          (add_transaction_boundary-IsWellFormed t x.well_formed) in
      (
        tr',
        results_step d i total r (r2 ∷ rest) tr t proofs snaps good held runs inside
            ∙ later
            ∙ ap (λ ps. done ps tr')
                (append_assoc proofs (proof_result r ∷ [])
                    (map proof_result (successes (r2 ∷ rest)))
                  ∙ ap (λ ss. proofs ++ map proof_result ss)
                      (sym (successes-cons r (r2 ∷ rest) good))),
        Continues-boundary x good c,
      )

  -- A block of which every trace is an error or can be translated is transpiled into one program,
  -- without an error or a panic: the results without an error are reported, in order, and the data
  -- section keeps its invariant; and on every machine that starts with its stack pointer in s2, and
  -- whose linker places the variables, the program runs to its end, every transaction of the block
  -- running through from an empty stack, at the address in s2, and moving the stack pointer by the
  -- items' pops and pushes.
  pub process_results-runs :
      (rs : List TraceResult)
      → All CanRun rs
      → (tr : Transpiler) × (process_results d 0 (length rs) rs new_transpiler []
          ≡ done (map proof_result (successes rs)) tr)
        × IsWellFormed d tr
        × ((l : Linked)
            → Covers l tr.data_section
            → (m : Machine) → m.regs sp ≡ m.regs s2
            → (m' : Machine) × (exec l tr.instructions m ≡ some m')
              × Blocks l (m.regs s2) rs tr.instructions m m')
  unfolding new_transpiler
  process_results-runs rs can =
      let (tr, runs, c) =
        process_results-Continues 0 (length rs) rs new_transpiler [] (omega arith) can refl
          (new_transpiler-IsWellFormed d) in
      (
        tr,
        runs,
        c.well_formed,
        λ l cover m base.
            let (m', b) = c.blocks l cover m base in
            (m', rw c.appended (Blocks-exec b), rw c.appended b),
      )
