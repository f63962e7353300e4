-- ===== src/Runner/Execute.antt =====
-- prover/unicorn_runner.go, `Execute` with its hook, and `loadElfSections`. The emulator and the ELF
-- reader are parameters: which of their calls fail, how a section gets into the memory, and which
-- instructions stand at the entry. The instructions run as `Machine` says, with 32 bits, one after
-- the other: the hook's write of the program counter at an EBREAK is the step to the next one.
use erigon_risc_v_executable.Prelude.{
  ℕ, ◌+◌, ◌-◌, ◌==◌, ◌||◌, not, List, [], ◌∷◌, ◌++◌, Option, none, some, Bool, true, false, Text,
  codes, if◌then◌else◌,
}
use erigon_risc_v_executable.Assembly.{Reg, sp, s1, s3, Instruction}
use erigon_risc_v_executable.Compiler.{is_ebreak}
use erigon_risc_v_executable.Deps.{Deps}
use erigon_risc_v_executable.Machine.{Machine, Linked, set_reg, step}
use erigon_risc_v_executable.Prover.{Answer, given, refused}
use erigon_risc_v_executable.Runner.{print_stack_state, word_mapped}

pub record Section : Type 0 where
  -- the type is SHT_PROGBITS
  pub progbits : Bool
  pub size : ℕ
  pub addr : ℕ
  pub bytes : Answer (List ℕ)

pub record ElfFile : Type 0 where
  pub sections : List Section
  pub entry : ℕ

-- the calls of the emulator that return an error
pub data UnicornCall : Type 0 where
  new_unicorn : UnicornCall
  mem_map : ℕ → ℕ → UnicornCall
  reg_write : Reg → ℕ → UnicornCall
  hook_add start hook_del close : UnicornCall

pub record Unicorn : Type 0 where
  pub error : UnicornCall → Option Text
  -- the hook's read of instruction number i, and its reads and writes of the program counter
  pub fetch_error : ℕ → Option Text
  pub pc_error : ℕ → Option Text
  -- `MemWrite`, whose error is dropped
  pub mem_write : ℕ → List ℕ → (ℕ → ℕ) → ℕ → ℕ
  pub program : (ℕ → ℕ) → ℕ → List Instruction
  pub linked : Linked
  pub create_temp : Option Text
  pub write_temp : List ℕ → Option Text
  pub open_elf : List ℕ → Answer ElfFile

-- `RuntimeError`, whose stage is "pre-runtime", "runtime" or "post-runtime", or an error passed on
pub data RunnerError : Type 0 where
  plain : Text → RunnerError
  staged : Text → Text → RunnerError

abbrev pub pre_runtime : Text → RunnerError
pre_runtime e = staged (codes "pre-runtime") e

abbrev pub runtime : Text → RunnerError
runtime e = staged (codes "runtime") e

abbrev pub post_runtime : Text → RunnerError
post_runtime e = staged (codes "post-runtime") e

pub data Executed : Type 0 where
  finished : List (List ℕ) → Executed
  failed : RunnerError → Executed
  panicked : RunnerError → Executed

abbrev pub code_addr : ℕ
code_addr = 65536

abbrev pub stack_addr : ℕ
stack_addr = 2147418112

abbrev pub mem_size : ℕ
mem_size = 65536

abbrev pub initial_stack_top : ℕ
initial_stack_top = stack_addr + mem_size - 16

abbrev pub context_stack_top : ℕ
context_stack_top = 1878982656

-- the registers that are written before the start, on a machine of zeros
unfoldable pub initial_regs : Reg → ℕ
initial_regs =
    set_reg s1 context_stack_top
      (set_reg s3 initial_stack_top (set_reg sp initial_stack_top (λ r. 0)))

-- the calls before the ELF file is loaded, in their order
abbrev pub setup_calls : List UnicornCall
setup_calls =
    mem_map 0 mem_size
    ∷ mem_map code_addr mem_size
    ∷ mem_map stack_addr mem_size
    ∷ reg_write sp initial_stack_top
    ∷ reg_write s3 initial_stack_top
    ∷ reg_write s1 context_stack_top
    ∷ mem_map (context_stack_top - 65536) 65536
    ∷ hook_add
    ∷ []

-- the ranges that these calls map
unfoldable pub ranges_of : List UnicornCall → List (ℕ × ℕ)
ranges_of [] = []
ranges_of (mem_map base size ∷ cs) = (base, size) ∷ ranges_of cs
ranges_of (_ ∷ cs) = ranges_of cs

-- a word that the emulator can read when the program runs
unfoldable pub mapped : ℕ → Bool
unfolding word_mapped ranges_of
mapped a = word_mapped (ranges_of setup_calls) a

-- the loop over the sections
unfoldable pub load_sections : Unicorn → List Section → (ℕ → ℕ) → ℕ → ℕ
load_sections u [] memory = memory
load_sections u (s ∷ ss) memory =
    let written : ℕ → ℕ = elim s.bytes [
      | refused _ ↦ memory
      | given bytes ↦ u.mem_write s.addr bytes memory
    ] in
    load_sections u ss
      (if not s.progbits || (s.size == 0) || (s.addr == 0) then memory else written)

-- The memory and the entry; `refused` is an error. The temporary file is removed on every path.
unfoldable pub load_elf_sections : Unicorn → List ℕ → (ℕ → ℕ) → Answer ((ℕ → ℕ) × ℕ)
unfolding load_sections
load_elf_sections u bytecode memory = elim u.create_temp [
  | some e ↦ refused e
  | none ↦ elim (u.write_temp bytecode) [
    | some e ↦ refused e
    | none ↦ elim (u.open_elf bytecode) [
      | refused e ↦ refused (codes "failed to parse ELF file: " ++ e)
      | given elf ↦ given (load_sections u elf.sections memory, elf.entry)
    ]
  ]
]

-- what `mu.Start` ends with
pub data HookedRun : Type 0 where
  completed : List (List ℕ) → Machine → HookedRun
  stuck : HookedRun
  hook_panic : Text → HookedRun

module _ (d : Deps) (u : Unicorn) where
  -- the hook at an EBREAK: the snapshot, or the error with which it panics
  unfoldable pub take_snapshot : ℕ → Machine → Answer (List ℕ)
  unfolding print_stack_state mapped
  take_snapshot n m = elim (print_stack_state d mapped stack_addr mem_size m) [
    | none ↦ refused (codes "stack")
    | some snapshot ↦ elim (u.pc_error n) [ some e ↦ refused e | none ↦ given snapshot ]
  ]

  -- the hook at instruction number `n`: the snapshots behind it
  unfoldable pub code_hook : ℕ → Instruction → Machine → List (List ℕ) → Answer (List (List ℕ))
  unfolding take_snapshot is_ebreak
  code_hook n i m snapshots = elim (u.fetch_error n) [
    | some e ↦ refused e
    | none ↦ elim (is_ebreak i.name) [
      | false ↦ given snapshots
      | true ↦ elim (take_snapshot n m) [
        | refused e ↦ refused e
        | given s ↦ given (snapshots ++ s ∷ [])
      ]
    ]
  ]

  -- the run of the instructions from number `n` on, with the hook in front of each
  unfoldable pub run_hooked : ℕ → List Instruction → Machine → List (List ℕ) → HookedRun
  unfolding code_hook step
  run_hooked n [] m snapshots = completed snapshots m
  run_hooked n (i ∷ is) m snapshots = elim (code_hook n i m snapshots) [
    | refused e ↦ hook_panic e
    | given snapshots' ↦ elim (step u.linked i m) [
      | none ↦ stuck
      | some m' ↦ run_hooked (n + 1) is m' snapshots'
    ]
  ]

  -- the first error of the calls
  unfoldable pub first_error : List UnicornCall → Option Text
  first_error [] = none
  first_error (c ∷ cs) = elim (u.error c) [ some e ↦ some e | none ↦ first_error cs ]

  unfoldable pub after_start : HookedRun → Executed
  after_start stuck = failed (runtime (codes "start"))
  after_start (hook_panic e) = panicked (runtime e)
  after_start (completed snapshots m) = elim (u.error hook_del) [
    | some e ↦ failed (post_runtime e)
    | none ↦ elim (u.error close) [ some e ↦ failed (post_runtime e) | none ↦ finished snapshots ]
  ]

  unfoldable pub execute : List ℕ → Executed
  unfolding first_error load_elf_sections after_start run_hooked initial_regs
  execute bytecode = elim (u.error new_unicorn) [
    | some e ↦ failed (plain e)
    | none ↦ elim (first_error setup_calls) [
      | some e ↦ failed (pre_runtime e)
      | none ↦ elim (load_elf_sections u bytecode (λ q. 0)) [
        | refused e ↦ failed (pre_runtime e)
        | given (memory, entry) ↦ elim (u.error start) [
          | some e ↦ failed (runtime e)
          | none ↦ after_start (
              run_hooked 0 (u.program memory entry)
                (record { regs = initial_regs; memory = memory }) [])
        ]
      ]
    ]
  ]
