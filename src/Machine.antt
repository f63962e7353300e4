-- ===== src/Machine.antt =====
-- The RV32 instructions that the transpiler emits, as the RISC-V manual describes them: registers of
-- 32 bits, a memory of bytes, little-endian words, addresses modulo 2 ^ 32. This is the target's
-- documented behaviour, against which the emitted code is read; no file of the repository holds it.
-- `la` takes the address of a label from the linker, and `call` the effect of a routine, as
-- parameters. `ebreak` only stops for a snapshot (prover/unicorn_runner.go skips it).
pub mod Memory
pub mod Stack
pub mod Balance
use erigon_risc_v_executable.Prelude.{
  ℕ, ◌+◌, ◌-◌, ◌*◌, ◌/◌, ◌%◌, ◌^◌, ◌==◌, ltb, List, [], ◌∷◌, Option, none, some, Text, to_word,
  if◌then◌else◌,
}
use erigon_risc_v_executable.Assembly.{
  Reg, sp, s1, s2, s3, t0, t1, t2, a0, a1, Mnemonic, addi, li, sw, lw, la, call, lb, sb, mv, nop,
  ebreak, Operand, reg, imm, mem, label, Instruction,
}

pub record Machine : Type 0 where
  pub regs : Reg → ℕ
  pub memory : ℕ → ℕ

-- the linker's addresses and the library's routines
pub record Linked : Type 0 where
  pub labels : Text → Option ℕ
  pub routines : Text → Machine → Option Machine

abbrev reg_index : Reg → ℕ
reg_index sp = 0
reg_index s1 = 1
reg_index s2 = 2
reg_index s3 = 3
reg_index t0 = 4
reg_index t1 = 5
reg_index t2 = 6
reg_index a0 = 7
reg_index a1 = 8

abbrev pub set_reg : Reg → ℕ → (Reg → ℕ) → Reg → ℕ
set_reg r v f q = if reg_index r == reg_index q then v else f q

abbrev pub word : ℕ → ℕ
word n = n % 2 ^ 32

-- the little-endian word at an address
unfoldable pub read_word : (ℕ → ℕ) → ℕ → ℕ
read_word f a =
    f (word a) + f (word (a + 1)) * 2 ^ 8 + f (word (a + 2)) * 2 ^ 16 + f (word (a + 3)) * 2 ^ 24

unfoldable pub write_word : (ℕ → ℕ) → ℕ → ℕ → ℕ → ℕ
write_word f a v q =
    if q == word a
    then v % 256
    else if q == word (a + 1)
    then v / 2 ^ 8 % 256
    else if q == word (a + 2)
    then v / 2 ^ 16 % 256
    else if q == word (a + 3)
    then v / 2 ^ 24 % 256
    else f q

-- a byte, extended by its sign
abbrev sign_extend : ℕ → ℕ
sign_extend b = if ltb b 128 then b else b + (2 ^ 32 - 256)

abbrev put : Reg → ℕ → Machine → Option Machine
put r v m = some (record m { regs = set_reg r v m.regs })

module _ (l : Linked) where
  step_addi : List Operand → Machine → Option Machine
  step_addi (reg rd ∷ reg rs ∷ imm z ∷ []) m = put rd (word (m.regs rs + to_word z)) m
  step_addi _ m = none

  step_li : List Operand → Machine → Option Machine
  step_li (reg rd ∷ imm z ∷ []) m = put rd (to_word z) m
  step_li _ m = none

  step_lw : List Operand → Machine → Option Machine
  step_lw (reg rd ∷ mem n rs ∷ []) m = put rd (read_word m.memory (m.regs rs + n)) m
  step_lw _ m = none

  step_sw : List Operand → Machine → Option Machine
  step_sw (reg rs ∷ mem n rd ∷ []) m =
      some (record m { memory = write_word m.memory (m.regs rd + n) (m.regs rs) })
  step_sw _ m = none

  step_la : List Operand → Machine → Option Machine
  step_la (reg rd ∷ label name ∷ []) m = elim (l.labels name) [ none ↦ none | some a ↦ put rd a m ]
  step_la _ m = none

  step_call : List Operand → Machine → Option Machine
  step_call (label name ∷ []) m = l.routines name m
  step_call _ m = none

  step_lb : List Operand → Machine → Option Machine
  step_lb (reg rd ∷ mem n rs ∷ []) m = put rd (sign_extend (m.memory (word (m.regs rs + n)))) m
  step_lb _ m = none

  step_sb : List Operand → Machine → Option Machine
  step_sb (reg rs ∷ mem n rd ∷ []) m =
      let a = word (m.regs rd + n) in
      some (record m { memory = λ q. if q == a then m.regs rs % 256 else m.memory q })
  step_sb _ m = none

  step_mv : List Operand → Machine → Option Machine
  step_mv (reg rd ∷ reg rs ∷ []) m = put rd (m.regs rs) m
  step_mv _ m = none

  step_by : Mnemonic → List Operand → Machine → Option Machine
  unfolding step_addi step_li step_lw step_sw step_la step_call step_lb step_sb step_mv
  step_by addi os m = step_addi os m
  step_by li os m = step_li os m
  step_by lw os m = step_lw os m
  step_by sw os m = step_sw os m
  step_by la os m = step_la os m
  step_by call os m = step_call os m
  step_by lb os m = step_lb os m
  step_by sb os m = step_sb os m
  step_by mv os m = step_mv os m
  step_by nop os m = some m
  step_by ebreak os m = some m

  unfoldable pub step : Instruction → Machine → Option Machine
  unfolding step_by
  step i m = step_by i.name i.operands m

  -- Straight-line code; `none` is an instruction that cannot be executed.
  unfoldable pub exec : List Instruction → Machine → Option Machine
  unfolding step
  exec [] m = some m
  exec (i ∷ is) m = elim (step i m) [ none ↦ none | some m' ↦ exec is m' ]
