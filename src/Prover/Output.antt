-- ===== src/Prover/Output.antt =====
-- The line that `TestRun` (prover/prover.go) looks for in the output of the run.
use erigon_risc_v_executable.Prelude.{
  ℕ, ◌<◌, ◌≡◌, refl, ◌⊎◌, inl, inr, List, [], ◌∷◌, ◌++◌, some, Option-cases, false, true, Text,
  codes, get_elem?, All,
}
use erigon_risc_v_executable.Compiler.{join}
use erigon_risc_v_executable.Prover.{Call, Host, ProverError, plain, ok, fail}
use erigon_risc_v_executable.Prover.Lines.{
  lines, has_prefix, find_line, find_line-first, find_line-none, join-lines,
}
use erigon_risc_v_executable.Prover.Prove.{execution_output}

abbrev pub line_prefix : Text
line_prefix = codes "Execution output:"

-- The lines of the output, joined by line ends, are the output, and what comes back is its first
-- line with the prefix "Execution output:"; an error comes back exactly when no line has it.
pub execution_output-lines :
    (host : Host) (output : Text) (h : List Call)
    → (join (10 ∷ []) (lines output) ≡ output)
      × (((line : Text) × (i : ℕ) × (execution_output host output h ≡ ok line h)
            × (get_elem? (lines output) i ≡ some line)
            × (has_prefix line line_prefix ≡ true)
            × ((k : ℕ) (l : Text)
                → k < i
                → get_elem? (lines output) k ≡ some l
                → has_prefix l line_prefix ≡ false))
          ⊎ ((e : ProverError) × (execution_output host output h ≡ fail e h)
              × All (λ l. has_prefix l line_prefix ≡ false) (lines output)))
unfolding execution_output
execution_output-lines host output h = (
  join-lines output,
  elim (Option-cases (find_line line_prefix (lines output))) [
    | inl e ↦ inr (
      plain (codes "execution output not found in the output: " ++ output),
      rw (e, execution_output) refl,
      find_line-none line_prefix (lines output) e,
    )
    | inr (line, e) ↦
        let (i, at, hit, first) = find_line-first line_prefix (lines output) e in
        inl (line, i, rw (e, execution_output) refl, at, hit, first)
  ],
)
