-- ===== src/Prover.antt =====
-- prover/prover.go: the calls of the tool chain. A call of the system (a command, a file) is answered
-- by a host, a parameter, from the list of all calls so far, the newest first and the call itself at
-- its head; the methods hand that list on. Times are left out.
pub mod Workspace
pub mod Prove
pub mod Verify
pub mod Lines
pub mod Calls
pub mod Stops
pub mod Outcomes
pub mod Cleanup
pub mod Accepted
pub mod Output
use erigon_risc_v_executable.Prelude.{
  ℕ, List, [], ◌∷◌, ◌++◌, Option, none, some, Text, codes, Bool, true, false, ◌≡◌, refl, ◌⊎◌, inl,
  inr,
}

pub data Answer {ℓ} (A : Type ℓ) : Type ℓ where
  given : A → Answer A
  refused : Text → Answer A

pub Answer-cases {ℓ} :
    {A : Type ℓ} (x : Answer A) → ((a : A) × (x ≡ given a)) ⊎ ((t : Text) × (x ≡ refused t))
Answer-cases (given a) = inl (a, refl)
Answer-cases (refused t) = inr (t, refl)

-- a call of the system, with its arguments
pub data Call : Type 0 where
  make_temp : Text → Call
  make_dir : Text → Call
  open_embedded : Text → Call
  create : Text → Call
  copy : Text → List ℕ → Call
  write_file : Text → List ℕ → Call
  read_file : Text → Call
  -- the directory, the program and its arguments
  command : Text → Text → List Text → Call
  remove_all : Text → Call

pub record CommandRun : Type 0 where
  pub stdout : Text
  pub stderr : Text
  pub error : Option Text

-- `ResultsFile`: two hexadecimal texts
pub record ResultsFile : Type 0 where
  pub app_vk : Text
  pub proof : Text

-- an entry of the embedded directory `openvm`, in the order of `fs.WalkDir`
pub data Entry : Type 0 where
  directory : Text → Entry
  file : Text → List ℕ → Entry

-- the operating system, and the standard library's paths, hexadecimal texts and JSON
pub record Host : Type 0 where
  pub temp_dir : List Call → Answer Text
  pub read : List Call → Answer (List ℕ)
  -- the error of a call that returns nothing else
  pub act : List Call → Option Text
  pub run : List Call → CommandRun
  pub join_path : List Text → Text
  pub toolchain : List Entry
  pub encode_hex : List ℕ → Text
  pub decode_hex : Text → Answer (List ℕ)
  pub unmarshal : List ℕ → Answer ResultsFile

-- `ZkProverError`, or an error that is passed on
pub data ProverError : Type 0 where
  plain : Text → ProverError
  zk : Text → ProverError → ProverError

-- `Error`
unfoldable pub error_text : ProverError → Text
error_text (plain e) = e
error_text (zk message underlying) =
    codes "ZkProver error: " ++ (message ++ (codes ": " ++ error_text underlying))

-- what a method returns, and the calls up to then
pub data Ran {ℓ} (A : Type ℓ) : Type ℓ where
  ok : A → List Call → Ran A
  fail : ProverError → List Call → Ran A

abbrev pub P {ℓ} : Type ℓ → Type ℓ
P A = List Call → Ran A

module _ {ℓ κ} {A : Type ℓ} {B : Type κ} where
  abbrev pub continue : (A → P B) → Ran A → Ran B
  continue f (ok a h) = f a h
  continue f (fail e h) = fail e h

  infixl 5 ◌>>=◌
  abbrev pub ◌>>=◌ : P A → (A → P B) → P B
  ◌>>=◌ m f h = continue f (m h)

infixl 5 ◌>>◌
abbrev pub ◌>>◌ {ℓ} : {B : Type ℓ} → P (Unit {0}) → P B → P B
m >> k = m >>= λ _. k

module _ {ℓ} {A : Type ℓ} where
  abbrev pub pure : A → P A
  pure a h = ok a h

  abbrev pub raise : ProverError → P A
  raise e h = fail e h

  abbrev pub wrapped : Text → Ran A → Ran A
  wrapped message (ok a h) = ok a h
  wrapped message (fail e h) = fail (zk message e) h

  -- `NewZkProverError` around an error
  abbrev pub wrap : Text → P A → P A
  wrap message m h = wrapped message (m h)

  -- an answer of a pure function of the standard library
  abbrev pub accept : Answer A → P A
  accept (given a) h = ok a h
  accept (refused e) h = fail (plain e) h

  abbrev pub answered : List Call → Answer A → Ran A
  answered h (given a) = ok a h
  answered h (refused e) = fail (plain e) h

abbrev pub done_unless : List Call → Option Text → Ran (Unit {0})
done_unless h none = ok tt h
done_unless h (some e) = fail (plain e) h

-- the error of `cmd.Run()`, with what the command wrote to its standard error
abbrev pub with_stderr : Text → Text → ProverError
with_stderr e [] = plain e
with_stderr e (c ∷ cs) = plain (e ++ (codes ": stderr: " ++ (c ∷ cs)))

unfoldable pub run_error : CommandRun → Option ProverError
run_error r = elim r.error [ none ↦ none | some e ↦ some (with_stderr e r.stderr) ]

module _ (host : Host) where
  unfoldable pub act : Call → P (Unit {0})
  act c h = done_unless (c ∷ h) (host.act (c ∷ h))

  unfoldable pub make_temp_dir : Text → P Text
  make_temp_dir pattern h = answered (make_temp pattern ∷ h) (host.temp_dir (make_temp pattern ∷ h))

  unfoldable pub read_bytes : Text → P (List ℕ)
  read_bytes path h = answered (read_file path ∷ h) (host.read (read_file path ∷ h))

  -- `Cli.Execute` in a work space: the output and the error.
  unfoldable pub execute : Text → List Text → P (Text × Option ProverError)
  unfolding run_error
  execute work_space [] h = ok ([], some (plain (codes "no command provided"))) h
  execute work_space (name ∷ args) h =
      let h' = command work_space name args ∷ h in
      let r = host.run h' in ok (r.stdout, run_error r) h'

  -- `Cli.readFile`
  unfoldable pub cli_read_file : Text → Text → P (List ℕ)
  unfolding read_bytes
  cli_read_file work_space name = read_bytes (host.join_path (work_space ∷ name ∷ []))

-- `if err != nil { return …, err }` after `Execute`
abbrev pub or_raise : Text × Option ProverError → P Text
or_raise (output, none) = pure output
or_raise (output, some e) = raise e

-- the same where the output is dropped
abbrev pub or_raise_unit : Text × Option ProverError → P (Unit {0})
or_raise_unit (output, none) = pure tt
or_raise_unit (output, some e) = raise e
