-- ===== src/BlockProver/Rendered.antt =====
-- `processBlockAsUnit` (cmd/block-prove/main.go) on traces that can be translated: its program is
-- always rendered, proved and reported.
use erigon_risc_v_executable.Prelude.{
  ℕ, ◌≡◌, refl, sym, subst, ◌∙◌, ◌⊎◌, inl, inr, List, [], ◌∷◌, Option, none, some, none-some, true,
  false, if-intro, Text, length, map, All, arith, if◌then◌else◌,
}
use erigon_risc_v_executable.Assembly.{IsNamed, AssemblyFile}
use erigon_risc_v_executable.Deps.{Deps}
use erigon_risc_v_executable.Machine.{Linked}
use erigon_risc_v_executable.Compiler.{
  open_vm, file_lines, to_file, to_zk_file, to_tool_chain_compatible_assembly,
}
use erigon_risc_v_executable.Compiler.Strip.{file_lines-open_vm}
use erigon_risc_v_executable.Transpiler.{Transpiler, new_transpiler, to_assembly}
use erigon_risc_v_executable.Transpiler.Run.{new_transpiler-IsWellFormed}
use erigon_risc_v_executable.Prover.{
  Answer, given, refused, Call, write_file, Host, Ran, ok, fail, P, ProverError,
}
use erigon_risc_v_executable.Prover.Prove.{ProofGeneration, prove, stark_prove}
use erigon_risc_v_executable.BlockProver.{
  TraceResult, ProofResult, proof_result, done, process_results,
}
use erigon_risc_v_executable.BlockProver.Boundary.{CanRun, successes}
use erigon_risc_v_executable.BlockProver.Program.{process_results-Continues}
use erigon_risc_v_executable.BlockProver.Handler.{
  BlockOptions, Encoder, BlockError, prove_failed, marshal_failed, no_proof, try_write, output_file,
  block_result, write_result, after_prove, prove_block, finish_block, process_traced,
}

map-some {ℓ κ} :
    {A : Type ℓ} {B : Type κ} (f : A → B) (o : Option A) {a : A}
    → o ≡ some a
    → (b : B) × ((elim o as (λ _. Option B) [ none ↦ none | some x ↦ some (f x) ]) ≡ some b)
map-some f none h = absurd (none-some h)
map-some f (some x) h = (f x, refl)

-- A file whose calls name their routines is rendered.
pub to_tool_chain_compatible_assembly-some :
    (d : Deps) (lib_file : Text) (a : AssemblyFile)
    → All IsNamed a.instructions
    → (content : Text) × (to_tool_chain_compatible_assembly d lib_file a ≡ some content)
unfolding to_tool_chain_compatible_assembly to_zk_file to_file
to_tool_chain_compatible_assembly-some d lib_file a named =
    let l : Linked = record { labels = λ name. some 0; routines = λ name m. some m } in
    let (shown, ls, written, _, _, _) = file_lines-open_vm l a.instructions named in
    map-some _ (to_zk_file a) (map-some _ (file_lines open_vm a.instructions) written).1

module _ (d : Deps) (lib_file : Text) (host : Host) (encoder : Encoder)
    (options : BlockOptions) where
  -- the method of proving that the flags choose
  abbrev pub proof_run : Text → P ProofGeneration
  proof_run content h =
      if options.use_stark_proof then stark_prove host content h else prove host content h

  -- What is reported for the program: nothing when proofs are skipped, or what the proof gave.
  abbrev pub Reports : Text → ProofGeneration → Type 0
  Reports content output =
      ((options.skip_proof ≡ true) × (output ≡ no_proof))
      ⊎ ((options.skip_proof ≡ false)
          × (h : List Call) × (h' : List Call) × (proof_run content h ≡ ok output h'))

  -- The end of the method: the result file is written last; or it cannot be encoded; or the proof
  -- failed.
  pub data Finishes (content : Text) (proofs : List ProofResult)
      : Option BlockError × List Call → Type 0 where
    written :
        {output : ProofGeneration} {bytes : List ℕ} {h : List Call}
        → Reports content output
        → encoder.block_result (block_result d lib_file host encoder options proofs output)
          ≡ given bytes
        → Finishes content proofs (none, write_file (output_file options.block_number) bytes ∷ h)
    unmarshalled :
        {output : ProofGeneration} {e : Text} {h : List Call}
        → Reports content output
        → encoder.block_result (block_result d lib_file host encoder options proofs output)
          ≡ refused e
        → Finishes content proofs (some (marshal_failed e), h)
    unproved :
        {e : ProverError} {h : List Call} (h0 h1 : List Call)
        → options.skip_proof ≡ false
        → proof_run content h0 ≡ fail e h1
        → Finishes content proofs (some (prove_failed e), h)

  encoded-Finishes :
      (content : Text) (proofs : List ProofResult) (output : ProofGeneration) (h : List Call)
      (x : Answer (List ℕ))
      → Reports content output
      → encoder.block_result (block_result d lib_file host encoder options proofs output) ≡ x
      → Finishes content proofs (elim x as (λ _. Option BlockError × List Call) [
        | refused e ↦ (some (marshal_failed e), h)
        | given bytes ↦ (none, try_write (output_file options.block_number) bytes h)
      ])
  encoded-Finishes content proofs output h (given bytes) r e = written r e
  encoded-Finishes content proofs output h (refused t) r e = unmarshalled r e

  write_result-Finishes :
      (content : Text) (proofs : List ProofResult) (output : ProofGeneration) (h : List Call)
      → Reports content output
      → Finishes content proofs (write_result d lib_file host encoder options proofs output h)
  unfolding write_result
  write_result-Finishes content proofs output h r =
      encoded-Finishes content proofs output h (encoder.block_result _) r refl

  after_prove-Finishes :
      (tr : Transpiler) (content : Text) (proofs : List ProofResult) (h : List Call)
      (o : Ran ProofGeneration)
      → options.skip_proof ≡ false
      → proof_run content h ≡ o
      → Finishes content proofs (after_prove d lib_file host encoder options tr proofs o)
  unfolding after_prove
  after_prove-Finishes tr content proofs h (ok output h') on e =
      write_result-Finishes content proofs output h' (inr (on, h, h', e))
  after_prove-Finishes tr content proofs h (fail x h') on e = unproved h h' on e

  prove_block-Finishes :
      (tr : Transpiler) (proofs : List ProofResult) (content : Text) (h : List Call)
      → Finishes content proofs (prove_block d lib_file host encoder options tr proofs content h)
  unfolding prove_block
  prove_block-Finishes tr proofs content h =
      if-intro (Finishes content proofs) options.skip_proof _ _
        (λ skip. write_result-Finishes content proofs no_proof _ (inl (skip, refl)))
        (λ on. after_prove-Finishes tr content proofs h (proof_run content h) on refl)

  process_traced-done :
      (rs : List TraceResult) (h : List Call) {proofs : List ProofResult} {tr : Transpiler}
      → process_results d 0 (length rs) rs new_transpiler [] ≡ done proofs tr
      → process_traced d lib_file host encoder options rs h
        ≡ finish_block d lib_file host encoder options tr proofs h
  unfolding process_traced
  process_traced-done rs h e = rw (e, process_traced) refl

  finish_block-some :
      (tr : Transpiler) (proofs : List ProofResult) (h : List Call) {content : Text}
      → to_tool_chain_compatible_assembly d lib_file (to_assembly tr) ≡ some content
      → finish_block d lib_file host encoder options tr proofs h
        ≡ prove_block d lib_file host encoder options tr proofs content
            (if options.debug_assembly then try_write options.assembly_file content h else h)
  unfolding finish_block
  finish_block-some tr proofs h e = rw (e, finish_block) refl

  -- A block of which every trace is an error or can be translated never fails to be transpiled and
  -- never panics: its program is rendered, and the method ends in one of three ways. The result
  -- file is written as its last call, with the transactions that were traced without an error and
  -- with what the proof of that program gave, or nothing when proofs are skipped; or that result
  -- cannot be encoded; or the proof of the program failed, whose error comes back.
  pub process_traced-Finishes :
      (rs : List TraceResult) (h : List Call)
      → All CanRun rs
      → (tr : Transpiler) × (content : Text) × (process_results d 0 (length rs) rs new_transpiler []
          ≡ done (map proof_result (successes rs)) tr)
        × (to_tool_chain_compatible_assembly d lib_file (to_assembly tr) ≡ some content)
        × Finishes content
            (map proof_result (successes rs))
            (process_traced d lib_file host encoder options rs h)
  process_traced-Finishes rs h can =
      let (tr, runs, c) =
        process_results-Continues d 0 (length rs) rs new_transpiler [] (omega arith) can
          (unfold new_transpiler in refl) (new_transpiler-IsWellFormed d) in
      let l : Linked = record { labels = λ name. some 0; routines = λ name m. some m } in
      let named : All IsNamed (to_assembly tr).instructions =
        unfold to_assembly new_transpiler in rw c.appended (c.named l (λ i below. (0, refl))) in
      let (content, rendered) =
        to_tool_chain_compatible_assembly-some d lib_file (to_assembly tr) named in
      (
        tr,
        content,
        runs,
        rendered,
        subst (Finishes content (map proof_result (successes rs)))
            (sym (process_traced-done rs h runs ∙ finish_block-some tr _ h rendered))
            (prove_block-Finishes tr _ content _),
      )
