-- ===== src/Prover/Outcomes.antt =====
-- What a proof of prover/prover.go was made of: the calls of the system behind it.
use erigon_risc_v_executable.Prelude.{
  ℕ, ◌≡◌, refl, sym, ap, ◌∙◌, List, [], ◌∷◌, Option, none, some, Option-cases, inl, inr, Text,
  codes,
}
use erigon_risc_v_executable.Prover.{
  Answer, given, refused, Call, write_file, read_file, command, Host, ProverError, Ran, ok, fail, P,
  continue, wrapped, wrap, answered, done_unless, act, read_bytes, make_temp_dir, run_error,
  execute, cli_read_file, or_raise, or_raise_unit, ◌>>=◌, pure,
}
use erigon_risc_v_executable.Prover.Workspace.{
  setup_workspace, setup_execution, extract_embed_fs, not_written, risc_path,
}
use erigon_risc_v_executable.Prover.Prove.{
  ProofGeneration, get_estimated_instruction_count, prove, stark_prove,
}
use erigon_risc_v_executable.Prover.Stops.{estimate}

abbrev cargo : Text → List Text → Call
cargo work_space args = command work_space (codes "cargo") (codes "openvm" ∷ args)

module _ (host : Host) where
  -- A result of proving, and the calls that led to it, the newest first: the work space was made and
  -- the program written into it, and then the commands ran and the two files were read. Times are
  -- not in it.
  pub record Proved (mode proof_name : Text) (vk_path : Text → Text) (content : List ℕ)
      (g : ProofGeneration) (h : List Call) : Type 0 where
    pub work_space : Text
    pub setup : List Call
    pub proved : List Call
    pub after_setup :
        proved
        ≡ cargo work_space (codes "prove" ∷ mode ∷ [])
          ∷ cargo work_space (codes "keygen" ∷ [])
          ∷ cargo work_space (codes "build" ∷ [])
          ∷ write_file (risc_path host work_space) content
          ∷ setup
    pub output : (host.run proved).stdout ≡ g.stdout
    pub succeeded : run_error (host.run proved) ≡ none
    pub calls :
        h
        ≡ estimate work_space
          ∷ read_file (vk_path work_space)
          ∷ read_file (host.join_path (work_space ∷ proof_name ∷ []))
          ∷ proved
    pub proof_read :
        host.read (read_file (host.join_path (work_space ∷ proof_name ∷ [])) ∷ proved)
        ≡ given g.proof
    pub vk_read :
        host.read (
          read_file (vk_path work_space)
          ∷ read_file (host.join_path (work_space ∷ proof_name ∷ []))
          ∷ proved)
        ≡ given g.app_vk

  -- What holds of a result and its calls, when there is a result.
  pub data Post {A : Type 0} (Q : A → List Call → Type 0) : Ran A → Type 0 where
    holds : {a : A} {h : List Call} → Q a h → Post Q (ok a h)
    without : {e : ProverError} {h : List Call} → Post Q (fail e h)

  Post-bind :
      {A B : Type 0} {Q : A → List Call → Type 0} {R : B → List Call → Type 0} (o : Ran A)
      (f : A → P B)
      → Post Q o
      → ((a : A) (h : List Call) → Q a h → Post R (f a h))
      → Post R (continue f o)
  Post-bind _ f (holds {a} {h} q) k = k a h q
  Post-bind _ f without k = without

  Post-wrapped :
      {A : Type 0} {Q : A → List Call → Type 0} (message : Text) (o : Ran A)
      → Post Q o
      → Post Q (wrapped message o)
  Post-wrapped message _ (holds q) = holds q
  Post-wrapped message _ without = without

  answered-Post :
      {A : Type 0} (h : List Call) (x : Answer A)
      → Post (λ a h'. (h' ≡ h) × (x ≡ given a)) (answered h x)
  answered-Post h (given a) = holds (refl, refl)
  answered-Post h (refused t) = without

  done_unless-Post : (h : List Call) (x : Option Text) → Post (λ _ h'. h' ≡ h) (done_unless h x)
  done_unless-Post h none = holds refl
  done_unless-Post h (some t) = without

  act-Post : (c : Call) (h : List Call) → Post (λ _ h'. h' ≡ c ∷ h) (act host c h)
  unfolding act
  act-Post c h = done_unless-Post (c ∷ h) (host.act (c ∷ h))

  read-Post :
      (path : Text) (h : List Call)
      → Post
          (λ a h'. (h' ≡ read_file path ∷ h) × (host.read (read_file path ∷ h) ≡ given a))
          (read_bytes host path h)
  unfolding read_bytes
  read-Post path h = answered-Post (read_file path ∷ h) (host.read (read_file path ∷ h))

  always-Post : {A : Type 0} (o : Ran A) → Post (λ _ _. Unit {0}) o
  always-Post (ok a h) = holds tt
  always-Post (fail e h) = without

  execute-Post :
      (dir name : Text) (args : List Text) (h : List Call)
      → Post
          (λ out h'.
            (h' ≡ command dir name args ∷ h)
            × ((host.run (command dir name args ∷ h)).stdout ≡ out)
            × (run_error (host.run (command dir name args ∷ h)) ≡ none))
          (continue or_raise (execute host dir (name ∷ args) h))
  unfolding execute
  execute-Post dir name args h =
      elim (Option-cases (run_error (host.run (command dir name args ∷ h)))) [
        | inl e ↦ rw e (holds (refl, refl, refl))
        | inr (t, e) ↦ rw e without
      ]

  execute_unit-Post :
      (dir name : Text) (args : List Text) (h : List Call)
      → Post
          (λ _ h'. h' ≡ command dir name args ∷ h)
          (continue or_raise_unit (execute host dir (name ∷ args) h))
  unfolding execute
  execute_unit-Post dir name args h =
      elim (Option-cases (run_error (host.run (command dir name args ∷ h)))) [
        | inl e ↦ rw e (holds refl)
        | inr (t, e) ↦ rw e without
      ]

  not_written-Post :
      {Q : Unit {0} → List Call → Type 0} (o : Ran (Unit {0}))
      → Post Q o
      → Post Q (not_written host o)
  not_written-Post _ (holds q) = holds q
  not_written-Post _ without = without

  setup_workspace-Post :
      (content : Text) (h : List Call)
      → Post
          (λ ws h'. (setup : List Call) × (h' ≡ write_file (risc_path host ws) content ∷ setup))
          (setup_workspace host content h)
  unfolding setup_workspace
  setup_workspace-Post content h =
      Post-bind _ _ (always-Post (make_temp_dir host (codes "zkvm-toolchain-*") h)) λ tmp h1 _.
        Post-bind _ _ (always-Post (extract_embed_fs host tmp host.toolchain h1)) λ _ h2 _.
          Post-bind _ _ (not_written-Post _ (act-Post (write_file _ content) h2))
            λ _ h3 wrote. holds (h2, wrote)

  setup_execution-Post :
      (content : Text) (h : List Call)
      → Post
          (λ ws h'.
            (setup : List Call) × (h'
              ≡ cargo ws (codes "keygen" ∷ [])
                ∷ cargo ws (codes "build" ∷ [])
                ∷ write_file (risc_path host ws) content
                ∷ setup))
          (setup_execution host content h)
  unfolding setup_execution
  setup_execution-Post content h =
      Post-bind _ _ (Post-wrapped _ _ (setup_workspace-Post content h)) λ ws h1 (setup, e1).
        Post-bind _ _ (Post-wrapped _ _ (execute_unit-Post ws _ _ h1)) λ _ h2 e2.
          Post-bind _ _ (Post-wrapped _ _ (execute_unit-Post ws _ _ h2)) λ _ h3 e3. holds (
            setup,
            e3
                ∙ ap (λ hs. cargo ws (codes "keygen" ∷ []) ∷ hs)
                    (e2 ∙ ap (λ hs. cargo ws (codes "build" ∷ []) ∷ hs) e1),
          )

  count-Post :
      (ws : Text) (h : List Call)
      → Post (λ n h'. h' ≡ estimate ws ∷ h) (get_estimated_instruction_count host ws h)
  unfolding get_estimated_instruction_count execute
  count-Post ws h = elim (Option-cases (run_error (host.run (estimate ws ∷ h)))) [
    | inl e ↦ rw e (holds refl)
    | inr (t, e) ↦ rw e (holds refl)
  ]

  -- the two methods, which differ in the kind of proof and in the files
  proving : Text → Text → (Text → Text) → Text → P ProofGeneration
  proving mode proof_name vk_path content =
      wrap (codes "failed to setup execution") (setup_execution host content) >>= λ work_space.
      wrap (codes "failed to execute prove command") (
        execute host work_space (codes "cargo" ∷ codes "openvm" ∷ codes "prove" ∷ mode ∷ [])
        >>= or_raise)
      >>= λ output. read_bytes host (host.join_path (work_space ∷ proof_name ∷ [])) >>= λ proof.
          read_bytes host (vk_path work_space) >>= λ app_vk.
          get_estimated_instruction_count host work_space >>= λ n.
          pure
            (record { proof = proof; app_vk = app_vk; stdout = output; estimated_instructions = n })

  proving-Post :
      (mode proof_name : Text) (vk_path : Text → Text) (content : Text) (h : List Call)
      → Post (Proved mode proof_name vk_path content) (proving mode proof_name vk_path content h)
  unfolding proving
  proving-Post mode proof_name vk_path content h =
      Post-bind _ _ (Post-wrapped _ _ (setup_execution-Post content h)) λ ws h1 (setup, e1).
        Post-bind _ _ (Post-wrapped _ _ (execute-Post ws _ _ h1)) λ out h2 (e2, stdout, fine).
          Post-bind _ _ (read-Post _ h2) λ proof h3 (e3, proof_read).
            Post-bind _ _ (read-Post _ h3) λ vk h4 (e4, vk_read).
              Post-bind _ _ (count-Post ws h4) λ n h5 e5.
                let prove_call = cargo ws (codes "prove" ∷ mode ∷ []) in
                let proof_call = read_file (host.join_path (ws ∷ proof_name ∷ [])) in
                holds (record {
                  work_space = ws;
                  setup = setup;
                  proved = h2;
                  after_setup = e2 ∙ ap (λ hs. prove_call ∷ hs) e1;
                  output = rw (sym e2) at stdout;
                  succeeded = rw (sym e2) at fine;
                  calls =
                      e5
                      ∙ ap (λ hs. estimate ws ∷ hs)
                          (e4 ∙ ap (λ hs. read_file (vk_path ws) ∷ hs) e3);
                  proof_read = proof_read;
                  vk_read = rw e3 at vk_read;
                })

  -- When a proof comes back, the program had been written to src/risc.asm of the work space, then
  -- `cargo openvm build`, `keygen` and `prove` ran there, in this order and with nothing between,
  -- the last without an error, and then the proof and the key were read; the proof, the key and the
  -- output that come back are those that were read and that `prove` wrote. An app proof and a STARK
  -- proof differ in the kind given to `prove` and in the paths of the files.
  pub prove-Proved :
      (content : Text) (h : List Call)
      → Post
          (Proved
            (codes "app")
            (codes "prover.app.proof")
            (λ ws. host.join_path (ws ∷ codes "target/openvm/app.vk" ∷ []))
            content)
          (prove host content h)
        × Post
            (Proved
              (codes "stark")
              (codes "prover.stark.proof")
              (λ ws. codes "/root/.openvm/agg_stark.vk")
              content)
            (stark_prove host content h)
  unfolding prove stark_prove cli_read_file proving
  prove-Proved content h = (
    proving-Post (codes "app") (codes "prover.app.proof")
        (λ ws. host.join_path (ws ∷ codes "target/openvm/app.vk" ∷ [])) content h,
    proving-Post (codes "stark") (codes "prover.stark.proof")
        (λ ws. codes "/root/.openvm/agg_stark.vk") content h,
  )
