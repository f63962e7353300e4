-- ===== src/Prover/Cleanup.antt =====
-- `VerifyFromResults` (prover/prover.go) on every path.
use erigon_risc_v_executable.Prelude.{
  ℕ, ◌≡◌, refl, ◌↔◌, List, [], ◌∷◌, Option, none, some, Option-cases, inl, inr, true, Text, codes,
  arith,
}
use erigon_risc_v_executable.Prover.{
  given, refused, Answer-cases, Call, make_temp, read_file, write_file, remove_all, Host,
  ProverError, act, make_temp_dir, read_bytes, execute,
}
use erigon_risc_v_executable.Prover.Verify.{
  Verified, no_result, verdict, settle, removed, results_path_or_default, verify_in, verify_run,
  verify_from_results,
}

-- the second list is the first with more calls
pub data Grows (first : List Call) : List Call → Type 0 where
  same : Grows first first
  more : {h : List Call} → Grows first h → (c : Call) → Grows first (c ∷ h)

abbrev pub temp_call : Call
temp_call = make_temp (codes "openvm-verify-*")

-- A result is valid exactly when there is no error beside it.
abbrev pub IsVerdict : Verified → Type 0
IsVerdict (r, e) = (r.valid ≡ true) ↔ (e ≡ none)

module _ (host : Host) (path : Text) (h : List Call) where
  abbrev pub read_call : Call
  read_call = read_file (results_path_or_default host path)

  -- Either no directory was made, or the one that was made is removed by the last call.
  pub data Tidy : List Call → Type 0 where
    unread : Tidy (read_call ∷ h)
    not_made :
        {t : Text}
        → host.temp_dir (temp_call ∷ read_call ∷ h) ≡ refused t
        → Tidy (temp_call ∷ read_call ∷ h)
    gone :
        {tmp : Text} {later : List Call}
        → host.temp_dir (temp_call ∷ read_call ∷ h) ≡ given tmp
        → Grows (temp_call ∷ read_call ∷ h) later
        → Tidy (remove_all tmp ∷ later)

  fail-IsVerdict : (e : ProverError) → IsVerdict (no_result, some e)
  fail-IsVerdict e = (λ x. ground arith, λ x. ground arith)

  verdict-IsVerdict : (output : Text) (e : Option ProverError) → IsVerdict (verdict (output, e))
  verdict-IsVerdict output none = (λ x. refl, λ x. refl)
  verdict-IsVerdict output (some e) = (λ x. ground arith, λ x. ground arith)

  abbrev pub IsTidy : Verified × List Call → Type 0
  IsTidy (v, h') = Tidy h' × IsVerdict v

  removed-IsTidy :
      (vk proof : List ℕ) (tmp : Text)
      → host.temp_dir (temp_call ∷ read_call ∷ h) ≡ given tmp
      → IsTidy (settle (removed host tmp (verify_in host vk proof tmp (temp_call ∷ read_call ∷ h))))
  unfolding verify_in act execute
  removed-IsTidy vk proof tmp made =
      let h1 = temp_call ∷ read_call ∷ h in
      let c1 = write_file (host.join_path (tmp ∷ codes "app.vk" ∷ [])) vk in
      let c2 = write_file (host.join_path (tmp ∷ codes "proof.app.proof" ∷ [])) proof in
      elim (Option-cases (host.act (c1 ∷ h1))) [
        | inr (t, e) ↦ rw e (gone made (more same c1), fail-IsVerdict _)
        | inl e ↦ elim (Option-cases (host.act (c2 ∷ c1 ∷ h1))) [
          | inr (t, e2) ↦ rw (e, e2) (gone made (more (more same c1) c2), fail-IsVerdict _)
          | inl e2 ↦ rw (e, e2) (gone made (more (more (more same c1) c2) _), verdict-IsVerdict _ _)
        ]
      ]

  -- On every path of the verification, errors included, the temporary directory is gone at the end:
  -- none was made, or the last call removes the one that was made; and the result is valid exactly
  -- when no error comes back beside it.
  pub verify_from_results-IsTidy : IsTidy (verify_from_results host path h)
  unfolding verify_from_results verify_run read_bytes make_temp_dir
  verify_from_results-IsTidy =
      let h1 = read_call ∷ h in
      elim (Answer-cases (host.read h1)) [
        | inr (t, e) ↦ rw e (unread, fail-IsVerdict _)
        | inl (bytes, e) ↦ elim (Answer-cases (host.unmarshal bytes)) [
          | inr (t, e2) ↦ rw (e, e2) (unread, fail-IsVerdict _)
          | inl (results, e2) ↦ elim (Answer-cases (host.decode_hex results.app_vk)) [
            | inr (t, e3) ↦ rw (e, e2, e3) (unread, fail-IsVerdict _)
            | inl (vk, e3) ↦ elim (Answer-cases (host.decode_hex results.proof)) [
              | inr (t, e4) ↦ rw (e, e2, e3, e4) (unread, fail-IsVerdict _)
              | inl (proof, e4) ↦ elim (Answer-cases (host.temp_dir (temp_call ∷ h1))) [
                | inr (t, e5) ↦ rw (e, e2, e3, e4, e5) (not_made e5, fail-IsVerdict _)
                | inl (tmp, e5) ↦ rw (e, e2, e3, e4, e5) (removed-IsTidy vk proof tmp e5)
              ]
            ]
          ]
        ]
      ]
