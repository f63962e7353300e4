-- ===== src/Prover/Workspace.antt =====
-- `setupWorkspace`, `extractEmbedFS` and `SetupExecution` (prover/prover.go).
use erigon_risc_v_executable.Prelude.{ℕ, List, [], ◌∷◌, ◌++◌, Text, codes}
use erigon_risc_v_executable.Prover.{
  Host, Entry, directory, file, make_dir, open_embedded, create, copy, write_file, P, ◌>>=◌, ◌>>◌,
  pure, wrap, act, make_temp_dir, execute, or_raise_unit, Ran, ok, fail, plain, error_text,
}

module _ (host : Host) where
  -- The closes are left out: their errors are logged only.
  unfoldable pub extract_file : Text → List ℕ → Text → P (Unit {0})
  unfolding act
  extract_file src_path bytes dst_path = do
    act host (open_embedded src_path)
    act host (create dst_path)
    act host (copy dst_path bytes)

  unfoldable pub extract_entry : Text → Entry → P (Unit {0})
  unfolding extract_file act
  extract_entry dst_dir (directory path) =
      act host (make_dir (host.join_path (dst_dir ∷ path ∷ [])))
  extract_entry dst_dir (file path bytes) =
      extract_file path bytes (host.join_path (dst_dir ∷ path ∷ []))

  unfoldable pub extract_embed_fs : Text → List Entry → P (Unit {0})
  unfolding extract_entry
  extract_embed_fs dst_dir [] = pure tt
  extract_embed_fs dst_dir (e ∷ es) = extract_entry dst_dir e >> extract_embed_fs dst_dir es

  -- the path of the assembly in a work space
  abbrev pub risc_path : Text → Text
  risc_path work_space = host.join_path (work_space ∷ codes "src" ∷ codes "risc.asm" ∷ [])

  -- "failed to write risc.asm: %w"
  abbrev pub not_written : Ran (Unit {0}) → Ran (Unit {0})
  not_written (ok a h) = ok a h
  not_written (fail e h) = fail (plain (codes "failed to write risc.asm: " ++ error_text e)) h

  unfoldable pub setup_workspace : Text → P Text
  unfolding extract_embed_fs make_temp_dir act error_text
  setup_workspace new_risc_content = do
    tmp_dir ← make_temp_dir host (codes "zkvm-toolchain-*")
    extract_embed_fs tmp_dir host.toolchain
    let work_space = host.join_path (tmp_dir ∷ codes "openvm" ∷ [])
    λ h. not_written (act host (write_file (risc_path work_space) new_risc_content) h)
    pure work_space

  unfoldable pub setup_execution : Text → P Text
  unfolding setup_workspace execute
  setup_execution content = do
    work_space ← wrap (codes "failed to setup workspace") (setup_workspace content)
    wrap (codes "failed to build project") (
        execute host work_space (codes "cargo" ∷ codes "openvm" ∷ codes "build" ∷ [])
        >>= or_raise_unit)
    wrap (codes "failed to generate keys") (
        execute host work_space (codes "cargo" ∷ codes "openvm" ∷ codes "keygen" ∷ [])
        >>= or_raise_unit)
    pure work_space
