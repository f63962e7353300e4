-- ===== src/Commands/Transaction.antt =====
-- The results that cmd/tx-prove makes of a transaction, and what cmd/evm-prove writes.
use erigon_risc_v_executable.Prelude.{
  ◌≡◌, refl, sym, ap, subst, ◌∙◌, List, none, some, true, false, Text, if-intro, All,
}
use erigon_risc_v_executable.Assembly.{IsNamed}
use erigon_risc_v_executable.Deps.{Deps}
use erigon_risc_v_executable.Compiler.{to_tool_chain_compatible_assembly}
use erigon_risc_v_executable.Machine.{Linked}
use erigon_risc_v_executable.Trace.{EvmExecutionState}
use erigon_risc_v_executable.Tracer.{StateTracer}
use erigon_risc_v_executable.Transpiler.{Transpiler, new_transpiler, to_assembly}
use erigon_risc_v_executable.Transpiler.Arity.{IsFilled}
use erigon_risc_v_executable.Transpiler.Effects.{ok}
use erigon_risc_v_executable.Transpiler.Step.{process_execution, Snapshots}
use erigon_risc_v_executable.Transpiler.Moves.{AllReady, process_execution-Extends}
use erigon_risc_v_executable.Transpiler.Run.{new_transpiler-IsWellFormed}
use erigon_risc_v_executable.Prover.{Call, Host, ProverError, Ran, fail}
use erigon_risc_v_executable.Prover.Prove.{ProofGeneration, prove}
use erigon_risc_v_executable.Prover.Accepted.{stored}
use erigon_risc_v_executable.BlockProver.Handler.{Encoder}
use erigon_risc_v_executable.BlockProver.Rendered.{to_tool_chain_compatible_assembly-some}
use erigon_risc_v_executable.Commands.{
  TransactionOptions, Created, created, not_proved, skipped_results, proof_results, debug_writes,
  prove_content, after_process, create_results,
}

module _ (d : Deps) (lib_file : Text) (host : Host) (encoder : Encoder)
    (options : TransactionOptions) where
  -- What the callback makes of the rendered program: the word "skipped" twice, or the hexadecimal
  -- texts of the key and the proof of the program, or the error of the proof.
  pub data Creates (content : Text) (before : List Call) : Created × List Call → Type 0 where
    skipped : options.skip_proving ≡ true → Creates content before (created skipped_results, before)
    proved :
        {g : ProofGeneration} {h : List Call}
        → options.skip_proving ≡ false
        → prove host content before ≡ Ran.ok g h
        → Creates content before (created (stored host g.app_vk g.proof), h)
    unproved :
        {e : ProverError} {h : List Call}
        → options.skip_proving ≡ false
        → prove host content before ≡ fail e h
        → Creates content before (not_proved e, h)

  proof_results-Creates :
      (content : Text) (h : List Call) (r : Ran ProofGeneration)
      → options.skip_proving ≡ false
      → prove host content h ≡ r
      → Creates content h (proof_results d lib_file host encoder options r)
  proof_results-Creates content h (Ran.ok g h') on e = proved on e
  proof_results-Creates content h (fail x h') on e = unproved on e

  prove_content-Creates :
      (content : Text) (h : List Call)
      → Creates content h (prove_content d lib_file host encoder options content h)
  unfolding prove_content
  prove_content-Creates content h =
      if-intro (Creates content h) options.skip_proving _ _ (λ skip. skipped skip)
        (λ on. proof_results-Creates content h (prove host content h) on refl)

  after_process-some :
      (tr : Transpiler) (snaps : Snapshots) (h : List Call) {content : Text}
      → to_tool_chain_compatible_assembly d lib_file (to_assembly tr) ≡ some content
      → after_process d lib_file host encoder options (ok (snaps, none) tr) h
        ≡ prove_content d lib_file host encoder options content
            (debug_writes d lib_file host encoder options tr content h)
  unfolding after_process
  after_process-some tr snaps h e = rw (e, after_process) refl

  -- A transaction whose trace can be translated is never refused by the transpiler and never
  -- panics: its program is rendered, and the callback returns the hexadecimal texts of the key and
  -- of the proof that proving that program gave, or the error of the proof, or "skipped" twice when
  -- proving is skipped.
  pub create_results-Creates :
      (tracer : StateTracer) (st : EvmExecutionState) (h : List Call)
      → tracer.execution_state ≡ some st
      → IsFilled st
      → AllReady tracer.evm_instructions
      → (snaps : Snapshots) × (tr : Transpiler) × (content : Text) × (process_execution d
            (some st)
            tracer.evm_instructions
            new_transpiler
          ≡ ok (snaps, none) tr)
        × (to_tool_chain_compatible_assembly d lib_file (to_assembly tr) ≡ some content)
        × Creates content
            (debug_writes d lib_file host encoder options tr content h)
            (create_results d lib_file host encoder options tracer h)
  unfolding create_results
  create_results-Creates tracer st h held filled ready =
      let (snaps, tr, runs, x) =
        process_execution-Extends d st filled tracer.evm_instructions new_transpiler ready
          (unfold new_transpiler in refl) (new_transpiler-IsWellFormed d) in
      let l : Linked = record { labels = λ name. some 0; routines = λ name m. some m } in
      let named : All IsNamed (to_assembly tr).instructions =
        unfold to_assembly new_transpiler in
        rw x.appended (x.balanced l (λ i below. (0, refl))).named in
      let (content, rendered) =
        to_tool_chain_compatible_assembly-some d lib_file (to_assembly tr) named in
      let same =
        ap
          (λ s.
            after_process d lib_file host encoder options
              (process_execution d s tracer.evm_instructions new_transpiler) h)
          held
        ∙ ap (λ o. after_process d lib_file host encoder options o h) runs
        ∙ after_process-some tr snaps h rendered in
      (
        snaps,
        tr,
        content,
        runs,
        rendered,
        subst (Creates content _) (sym same) (prove_content-Creates content _),
      )
