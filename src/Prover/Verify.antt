-- ===== src/Prover/Verify.antt =====
-- `VerifyFromResults` (prover/prover.go), which cmd/proof-verify runs.
use erigon_risc_v_executable.Prelude.{
  ℕ, List, [], ◌∷◌, Option, none, some, Text, codes, Bool, true, false,
}
use erigon_risc_v_executable.Prover.{
  Host, ProverError, zk, Call, remove_all, write_file, Ran, ok, fail, P, ◌>>=◌, ◌>>◌, pure, wrap,
  act, accept, make_temp_dir, read_bytes, execute,
}

pub record VerificationResult : Type 0 where
  pub stdout : Text
  pub valid : Bool

-- what the method returns: the result, also beside an error
abbrev pub Verified : Type 0
Verified = VerificationResult × Option ProverError

abbrev pub no_result : VerificationResult
no_result = record { stdout = []; valid = false }

abbrev pub verdict : Text × Option ProverError → Verified
verdict (output, none) = (record { stdout = output; valid = true }, none)
verdict (output, some e) =
    (record { stdout = output; valid = false }, some (zk (codes "verification failed") e))

-- an early return
abbrev pub settle : Ran Verified → Verified × List Call
settle (ok v h) = (v, h)
settle (fail e h) = ((no_result, some e), h)

module _ (host : Host) where
  -- the method behind the directory's creation, up to the deferred removal
  unfoldable pub verify_in : List ℕ → List ℕ → Text → P Verified
  unfolding act execute
  verify_in app_vk_bytes proof_bytes tmp_dir = do
    let app_vk_path = host.join_path (tmp_dir ∷ codes "app.vk" ∷ [])
    wrap (codes "failed to write app.vk file") (act host (write_file app_vk_path app_vk_bytes))
    let proof_path = host.join_path (tmp_dir ∷ codes "proof.app.proof" ∷ [])
    wrap (codes "failed to write proof file") (act host (write_file proof_path proof_bytes))
    output ← execute host tmp_dir (
        codes "cargo"
        ∷ codes "openvm"
        ∷ codes "verify"
        ∷ codes "app"
        ∷ codes "--app-vk"
        ∷ app_vk_path
        ∷ codes "--proof"
        ∷ proof_path
        ∷ [])
    pure (verdict output)

  -- `defer os.RemoveAll(tmpDir)`: the error of the removal is dropped.
  abbrev pub removed : Text → Ran Verified → Ran Verified
  removed tmp_dir (ok v h) = ok v (remove_all tmp_dir ∷ h)
  removed tmp_dir (fail e h) = fail e (remove_all tmp_dir ∷ h)

  abbrev pub results_path_or_default : Text → Text
  results_path_or_default [] = codes "results.json"
  results_path_or_default (c ∷ s) = c ∷ s

  unfoldable pub verify_run : Text → P Verified
  unfolding verify_in read_bytes make_temp_dir
  verify_run results_path = do
    results_data ←
        wrap (codes "failed to read results file")
          (read_bytes host (results_path_or_default results_path))
    results ← wrap (codes "failed to parse results file") (accept (host.unmarshal results_data))
    app_vk_bytes ←
        wrap (codes "failed to decode AppVK hex") (accept (host.decode_hex results.app_vk))
    proof_bytes ← wrap (codes "failed to decode Proof hex") (accept (host.decode_hex results.proof))
    tmp_dir ←
        wrap (codes "failed to create temp directory")
          (make_temp_dir host (codes "openvm-verify-*"))
    λ h. removed tmp_dir (verify_in app_vk_bytes proof_bytes tmp_dir h)

  unfoldable pub verify_from_results : Text → List Call → Verified × List Call
  unfolding verify_run
  verify_from_results results_path h = settle (verify_run results_path h)
