-- ===== src/Prover/Accepted.antt =====
-- The calls that `VerifyFromResults` (prover/prover.go) makes when it gets to the end, and when it accepts.
use erigon_risc_v_executable.Prelude.{
  ℕ, ◌≡◌, ◌↔◌, refl, List, [], ◌∷◌, none, Option-cases, inl, inr, true, false, Text, codes, arith,
}
use erigon_risc_v_executable.Prover.{
  Answer-cases, given, Call, read_file, write_file, command, remove_all, Host, ResultsFile, act,
  make_temp_dir, read_bytes, run_error, execute,
}
use erigon_risc_v_executable.Prover.Verify.{
  Verified, settle, removed, results_path_or_default, verify_in, verify_run, verify_from_results,
}
use erigon_risc_v_executable.Prover.Cleanup.{temp_call}

-- what block-prove and tx-prove store of a proof
abbrev pub stored : Host → List ℕ → List ℕ → ResultsFile
stored host app_vk proof = record { app_vk = host.encode_hex app_vk; proof = host.encode_hex proof }

module _ (host : Host) (tmp : Text) where
  abbrev pub vk_path : Text
  vk_path = host.join_path (tmp ∷ codes "app.vk" ∷ [])

  abbrev pub proof_path : Text
  proof_path = host.join_path (tmp ∷ codes "proof.app.proof" ∷ [])

  -- the command that verifies
  abbrev pub verify_call : Call
  verify_call = command tmp (codes "cargo") (
      codes "openvm"
      ∷ codes "verify"
      ∷ codes "app"
      ∷ codes "--app-vk"
      ∷ vk_path
      ∷ codes "--proof"
      ∷ proof_path
      ∷ [])

  -- the calls up to the reading of the file, the writing of the key and that of the proof
  abbrev pub after_read : Text → List Call → List Call
  after_read path h = read_file (results_path_or_default host path) ∷ h

  abbrev pub after_key : Text → List Call → List ℕ → List Call
  after_key path h app_vk = write_file vk_path app_vk ∷ temp_call ∷ after_read path h

  abbrev pub after_proof : Text → List Call → List ℕ → List ℕ → List Call
  after_proof path h app_vk proof = write_file proof_path proof ∷ after_key path h app_vk

module _ (host : Host) (path : Text) (h : List Call) where
  -- The verification got to its end, and the command that it ran accepted.
  pub record Accepts (stdout : Text) (h' : List Call) : Type 0 where
    pub content : List ℕ
    pub results : ResultsFile
    pub app_vk : List ℕ
    pub proof : List ℕ
    pub tmp : Text
    pub file_read : host.read (after_read host tmp path h) ≡ given content
    pub parsed : host.unmarshal content ≡ given results
    pub vk_decoded : host.decode_hex results.app_vk ≡ given app_vk
    pub proof_decoded : host.decode_hex results.proof ≡ given proof
    pub made : host.temp_dir (temp_call ∷ after_read host tmp path h) ≡ given tmp
    pub vk_written : host.act (after_key host tmp path h app_vk) ≡ none
    pub proof_written : host.act (after_proof host tmp path h app_vk proof) ≡ none
    pub accepted :
        run_error (host.run (verify_call host tmp ∷ after_proof host tmp path h app_vk proof))
        ≡ none
    pub output :
        stdout ≡ (host.run (verify_call host tmp ∷ after_proof host tmp path h app_vk proof)).stdout
    pub calls :
        h' ≡ remove_all tmp ∷ verify_call host tmp ∷ after_proof host tmp path h app_vk proof

  abbrev IsAccepted : Verified × List Call → Type 0
  IsAccepted (v, h') = v.0.valid ≡ true → Accepts v.0.stdout h'

  refuses : {t : Text} {h' : List Call} → false ≡ true → Accepts t h'
  refuses x = ground arith

  in_directory :
      (content : List ℕ) (results : ResultsFile) (vk proof : List ℕ) (tmp : Text)
      → host.read (after_read host tmp path h) ≡ given content
      → host.unmarshal content ≡ given results
      → host.decode_hex results.app_vk ≡ given vk
      → host.decode_hex results.proof ≡ given proof
      → host.temp_dir (temp_call ∷ after_read host tmp path h) ≡ given tmp
      → IsAccepted (
          settle (
            removed host tmp
              (verify_in host vk proof tmp (temp_call ∷ after_read host tmp path h))))
  unfolding verify_in act execute
  in_directory content results vk proof tmp e1 e2 e3 e4 e5 =
      elim (Option-cases (host.act (after_key host tmp path h vk))) [
        | inr (t, e) ↦ rw e refuses
        | inl e6 ↦ elim (Option-cases (host.act (after_proof host tmp path h vk proof))) [
          | inr (t, e) ↦ rw (e6, e) refuses
          | inl e7 ↦
              elim (Option-cases (
                run_error
                  (host.run (verify_call host tmp ∷ after_proof host tmp path h vk proof)))) [
                    | inr (t, e) ↦ rw (e6, e7, e) (λ x. ground arith)
                    | inl e8 ↦
                        rw (e6, e7, e8)
                          (λ _. record {
                            content = content;
                            results = results;
                            app_vk = vk;
                            proof = proof;
                            tmp = tmp;
                            file_read = e1;
                            parsed = e2;
                            vk_decoded = e3;
                            proof_decoded = e4;
                            made = e5;
                            vk_written = e6;
                            proof_written = e7;
                            accepted = e8;
                            output = refl;
                            calls = refl;
                          })
                  ]
        ]
      ]

  verify_from_results-IsAccepted : IsAccepted (verify_from_results host path h)
  unfolding verify_from_results verify_run verify_in read_bytes make_temp_dir act execute
  verify_from_results-IsAccepted =
      let h1 = read_file (results_path_or_default host path) ∷ h in
      elim (Answer-cases (host.read h1)) [
        | inr (t, e) ↦ rw e refuses
        | inl (bytes, e) ↦ elim (Answer-cases (host.unmarshal bytes)) [
          | inr (t, e2) ↦ rw (e, e2) refuses
          | inl (results, e2) ↦ elim (Answer-cases (host.decode_hex results.app_vk)) [
            | inr (t, e3) ↦ rw (e, e2, e3) refuses
            | inl (vk, e3) ↦ elim (Answer-cases (host.decode_hex results.proof)) [
              | inr (t, e4) ↦ rw (e, e2, e3, e4) refuses
              | inl (proof, e4) ↦ elim (Answer-cases (host.temp_dir (temp_call ∷ h1))) [
                | inr (t, e5) ↦ rw (e, e2, e3, e4, e5) refuses
                | inl (tmp, e5) ↦
                    rw (e, e2, e3, e4, e5) (in_directory bytes results vk proof tmp e e2 e3 e4 e5)
              ]
            ]
          ]
        ]
      ]

  -- The verification accepts exactly when the results file was read and parsed, its key and its
  -- proof were decoded from hexadecimal, the directory was made, the key and the proof were written
  -- into it, and then `cargo openvm verify app` ran there on these two files without an error; when
  -- it accepts, these are all its calls, in this order, with the removal of the directory last, and
  -- the output is that of the command.
  pub verify_from_results_iff :
      let ((result, e), h') = verify_from_results host path h in
      (result.valid ≡ true) ↔ Accepts result.stdout h'
  unfolding verify_from_results verify_run verify_in read_bytes make_temp_dir act execute
  verify_from_results_iff = (
    verify_from_results-IsAccepted,
    λ a.
        rw
          (
            a.file_read, a.parsed, a.vk_decoded, a.proof_decoded, a.made, a.vk_written,
            a.proof_written, a.accepted,
          )
          refl,
  )
