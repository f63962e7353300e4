-- ===== src/BlockProver/Boundary.antt =====
-- The loop of `processBlockAsUnit` (cmd/block-prove/main.go) over the traces of a block, and
-- `AddTransactionBoundary` (transpiler/transpiler.go) between them: one program for all.
use erigon_risc_v_executable.Prelude.{
  ℕ, ◌+◌, ◌*◌, ◌≡◌, refl, ◌∙◌, ◌⊎◌, List, [], ◌∷◌, ◌++◌, none, some, Text,
}
use erigon_risc_v_executable.Assembly.{Instruction, instr, mv, sp, s2, s3, reg}
use erigon_risc_v_executable.Emit.{ebreak_instr}
use erigon_risc_v_executable.Trace.{EvmExecutionState}
use erigon_risc_v_executable.Machine.{Machine, Linked, word, exec}
use erigon_risc_v_executable.Machine.Balance.{exec-append}
use erigon_risc_v_executable.Transpiler.Arity.{IsFilled}
use erigon_risc_v_executable.Transpiler.Moves.{AllReady, trace_pops, trace_pushes}
use erigon_risc_v_executable.BlockProver.{TraceResult}

-- the instructions of a boundary
abbrev pub boundary_code : List Instruction
boundary_code =
    instr mv (reg sp ∷ reg s2 ∷ []) ∷ instr mv (reg s3 ∷ reg s2 ∷ []) ∷ ebreak_instr ∷ []

-- the stack is empty: the stack pointer is the one that was saved in s2
abbrev pub AtBase : ℕ → Machine → Type 0
AtBase b m = (m.regs s2 ≡ b) × (m.regs sp ≡ b)

-- A result of the tracing that is an error, or a trace whose items can be translated.
abbrev pub CanRun : TraceResult → Type 0
CanRun r =
    ((e : Text) × (r.error ≡ some e))
    ⊎ ((r.error ≡ none)
        × (st : EvmExecutionState) × (r.state ≡ some st)
        × IsFilled st
        × AllReady r.instructions)

-- the results without an error
unfoldable pub successes : List TraceResult → List TraceResult
successes [] = []
successes (r ∷ rs) = elim r.error [ some _ ↦ successes rs | none ↦ r ∷ successes rs ]

-- The code of a transaction runs to its end and moves the stack pointer by the pops and pushes of
-- its trace.
pub record Transacts (l : Linked) (r : TraceResult) (c : List Instruction) (m m' : Machine)
    : Type 0 where
  pub runs : exec l c m ≡ some m'
  pub moved :
      word (m'.regs sp + 32 * trace_pushes r.instructions)
      ≡ word (m.regs sp + 32 * trace_pops r.instructions)

-- The transactions of a block run one after the other, each from an empty stack at the address `b`.
pub data Blocks (l : Linked) (b : ℕ)
    : List TraceResult → List Instruction → Machine → Machine → Type 0 where
  over : {m : Machine} → Blocks l b [] [] m m
  skipped :
      {r : TraceResult} {rest : List TraceResult} {code : List Instruction} {m m' : Machine}
      → (e : Text) → r.error ≡ some e
      → Blocks l b rest code m m'
      → Blocks l b (r ∷ rest) code m m'
  last :
      {r : TraceResult} {c : List Instruction} {m m' : Machine}
      → r.error ≡ none
      → AtBase b m
      → Transacts l r c m m'
      → Blocks l b (r ∷ []) c m m'
  between :
      {r : TraceResult} {rest : List TraceResult} {c code : List Instruction} {m m1 m2 m' : Machine}
      → r.error ≡ none
      → AtBase b m
      → Transacts l r c m m1
      → exec l boundary_code m1 ≡ some m2
      → Blocks l b rest code m2 m'
      → Blocks l b (r ∷ rest) (c ++ (boundary_code ++ code)) m m'

pub Blocks-exec :
    {l : Linked} {b : ℕ} {rs : List TraceResult} {code : List Instruction} {m m' : Machine}
    → Blocks l b rs code m m'
    → exec l code m ≡ some m'
unfolding exec
Blocks-exec over = refl
Blocks-exec (skipped e _ more) = Blocks-exec more
Blocks-exec (last _ _ t) = t.runs
Blocks-exec {l} (between {c} {code} {m} {m1} _ _ t boundary more) =
    exec-append l c (boundary_code ++ code) m t.runs
    ∙ exec-append l boundary_code code m1 boundary
    ∙ Blocks-exec more

-- A boundary leaves the memory and empties the stack.
pub boundary_runs :
    (l : Linked) (m : Machine)
    → (m' : Machine) × (exec l boundary_code m ≡ some m') × AtBase (m.regs s2) m'
unfolding exec
boundary_runs l m = (_, refl, (refl, refl))
