-- ===== src/Prover/Stops.antt =====
-- The methods of prover/prover.go stop at the first call of the system that fails.
use erigon_risc_v_executable.Prelude.{ℕ, refl, List, [], ◌∷◌, Option-cases, inl, inr, Text, codes}
use erigon_risc_v_executable.Prover.{
  Call, make_dir, open_embedded, create, copy, write_file, command, Entry, directory, file, Host,
  ProverError, Ran, ok, fail, P, continue, run_error, execute, cli_read_file,
}
use erigon_risc_v_executable.Prover.Workspace.{
  extract_file, extract_entry, extract_embed_fs, setup_workspace, setup_execution, not_written,
}
use erigon_risc_v_executable.Prover.Prove.{
  ProofGeneration, get_estimated_instruction_count, prove, stark_prove,
}
use erigon_risc_v_executable.Prover.Calls.{
  Clean, here, Fails, Stops, Clean-trans, Fails-trans, Stops-wrapped, Stops-bind, act-Stops,
  make_temp_dir-Stops, read_bytes-Stops, execute-Stops, execute_unit-Stops, refusal,
}

-- the command that counts the instructions
abbrev pub estimate : Text → Call
estimate work_space =
    command work_space (codes "riscv64-unknown-elf-objdump")
      (codes "-d" ∷ codes "target/riscv32im-risc0-zkvm-elf/release/prover" ∷ [])

module _ (host : Host) where
  extract_file-Stops :
      (src_path : Text) (bytes : List ℕ) (dst_path : Text) (h : List Call)
      → Stops host h (extract_file host src_path bytes dst_path h)
  unfolding extract_file refusal
  extract_file-Stops src_path bytes dst_path h =
      Stops-bind host h _ _ (act-Stops host (open_embedded src_path) h refl) λ _ h1.
        Stops-bind host h1 _ _ (act-Stops host (create dst_path) h1 refl)
          λ _ h2. act-Stops host (copy dst_path bytes) h2 refl

  extract_entry-Stops :
      (dst_dir : Text) (e : Entry) (h : List Call) → Stops host h (extract_entry host dst_dir e h)
  unfolding extract_entry refusal
  extract_entry-Stops dst_dir (directory path) h = act-Stops host (make_dir _) h refl
  extract_entry-Stops dst_dir (file path bytes) h = extract_file-Stops path bytes _ h

  extract_embed_fs-Stops :
      (dst_dir : Text) (es : List Entry) (h : List Call)
      → Stops host h (extract_embed_fs host dst_dir es h)
  unfolding extract_embed_fs
  extract_embed_fs-Stops dst_dir [] h = here
  extract_embed_fs-Stops dst_dir (e ∷ es) h =
      Stops-bind host h _ _ (extract_entry-Stops dst_dir e h)
        λ _ h1. extract_embed_fs-Stops dst_dir es h1

  not_written-Stops :
      (first : List Call) (o : Ran (Unit {0}))
      → Stops host first o
      → Stops host first (not_written host o)
  not_written-Stops first (ok a h) s = s
  not_written-Stops first (fail e h) s = s

  setup_workspace-Stops :
      (content : List ℕ) (h : List Call) → Stops host h (setup_workspace host content h)
  unfolding setup_workspace refusal
  setup_workspace-Stops content h = Stops-bind host h _ _ (make_temp_dir-Stops host _ h) λ tmp h1.
      Stops-bind host h1 _ _ (extract_embed_fs-Stops tmp host.toolchain h1) λ _ h2.
        Stops-bind host h2 _ _
          (not_written-Stops h2 _ (act-Stops host (write_file _ content) h2 refl)) λ _ h3. here

  setup_execution-Stops :
      (content : List ℕ) (h : List Call) → Stops host h (setup_execution host content h)
  unfolding setup_execution
  setup_execution-Stops content h =
      Stops-bind host h _ _ (Stops-wrapped host h _ _ (setup_workspace-Stops content h)) λ ws h1.
        Stops-bind host h1 _ _ (Stops-wrapped host h1 _ _ (execute_unit-Stops host ws _ _ h1))
          λ _ h2.
            Stops-bind host h2 _ _ (Stops-wrapped host h2 _ _ (execute_unit-Stops host ws _ _ h2))
              λ _ h3. here

  -- The same for a method that ends with the count of instructions, whose call may fail.
  pub data Ends (first : List Call) : Ran ProofGeneration → Type 0 where
    stopped : {e : ProverError} {h : List Call} → Fails host first h → Ends first (fail e h)
    completed :
        {g : ProofGeneration} {h : List Call}
        → Clean host first h
        → (work_space : Text) → Ends first (ok g (estimate work_space ∷ h))

  Ends-trans : {a b : List Call} {o : Ran ProofGeneration} → Clean host a b → Ends b o → Ends a o
  Ends-trans c (stopped f) = stopped (Fails-trans host c f)
  Ends-trans c (completed d ws) = completed (Clean-trans host c d) ws

  Ends-bind {ℓ} :
      {A : Type ℓ} (first : List Call) (o : Ran A) (f : A → P ProofGeneration)
      → Stops host first o
      → ((a : A) (h : List Call) → Ends h (f a h))
      → Ends first (continue f o)
  Ends-bind first (ok a h) f s k = Ends-trans s (k a h)
  Ends-bind first (fail e h) f s k = stopped s

  count-Ends :
      (ws : Text) (g : ℕ → ProofGeneration) (h : List Call)
      → Ends h (continue (λ n h. ok (g n) h) (get_estimated_instruction_count host ws h))
  unfolding get_estimated_instruction_count execute
  count-Ends ws g h = elim (Option-cases (run_error (host.run (estimate ws ∷ h)))) [
    | inl e ↦ rw e (completed here ws)
    | inr (x, e) ↦ rw e (completed here ws)
  ]

  prove-app-Ends : (content : List ℕ) (h : List Call) → Ends h (prove host content h)
  unfolding prove cli_read_file
  prove-app-Ends content h =
      Ends-bind h _ _ (Stops-wrapped host h _ _ (setup_execution-Stops content h)) λ ws h1.
        Ends-bind h1 _ _ (Stops-wrapped host h1 _ _ (execute-Stops host ws _ _ h1)) λ output h2.
          Ends-bind h2 _ _ (read_bytes-Stops host _ h2)
            λ proof h3. Ends-bind h3 _ _ (read_bytes-Stops host _ h3) λ vk h4. count-Ends ws _ h4

  prove-stark-Ends : (content : List ℕ) (h : List Call) → Ends h (stark_prove host content h)
  unfolding stark_prove cli_read_file
  prove-stark-Ends content h =
      Ends-bind h _ _ (Stops-wrapped host h _ _ (setup_execution-Stops content h)) λ ws h1.
        Ends-bind h1 _ _ (Stops-wrapped host h1 _ _ (execute-Stops host ws _ _ h1)) λ output h2.
          Ends-bind h2 _ _ (read_bytes-Stops host _ h2)
            λ proof h3. Ends-bind h3 _ _ (read_bytes-Stops host _ h3) λ vk h4. count-Ends ws _ h4

  -- Both methods of proving end in one of two ways, for every content and every host: with an
  -- error, right after the first call of the system that fails; or with a result, when no call
  -- failed, but for the last, whose command counts the instructions and may fail.
  pub prove-Ends :
      (content : List ℕ) (h : List Call)
      → Ends h (prove host content h) × Ends h (stark_prove host content h)
  prove-Ends content h = (prove-app-Ends content h, prove-stark-Ends content h)
