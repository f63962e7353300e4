-- ===== src/Assembly.antt =====
-- prover/compiler.go: RISC-V instructions, data variables and the assembly file. The source keeps
-- an instruction as texts, `Name` and `Operands`; here both are structured, and `mnemonic_text`
-- and `operand_text` give the texts.
use erigon_risc_v_executable.Prelude.{
  ℕ, ◌+◌, Bool, true, false, ◌≡◌, List, [], ◌++◌, Text, codes, decimal, ℤ, pos, negsuc,
}

pub data Reg : Type 0 where
  sp s1 s2 s3 t0 t1 t2 a0 a1 : Reg

pub data Mnemonic : Type 0 where
  addi li sw lw la call lb sb mv nop ebreak : Mnemonic

pub data Operand : Type 0 where
  reg : Reg → Operand
  imm : ℤ → Operand
  -- `%d(reg)`
  mem : ℕ → Reg → Operand
  -- the name of a data variable or of a library routine
  label : Text → Operand

pub record Instruction : Type 0 where
  pub name : Mnemonic
  pub operands : List Operand

abbrev pub instr : Mnemonic → List Operand → Instruction
instr n os = record { name = n; operands = os }

pub record DataVariable : Type 0 where
  pub name : Text
  pub value : ℕ

pub record AssemblyFile : Type 0 where
  pub instructions : List Instruction
  pub data_section : List DataVariable

unfoldable pub reg_text : Reg → Text
reg_text sp = codes "sp"
reg_text s1 = codes "s1"
reg_text s2 = codes "s2"
reg_text s3 = codes "s3"
reg_text t0 = codes "t0"
reg_text t1 = codes "t1"
reg_text t2 = codes "t2"
reg_text a0 = codes "a0"
reg_text a1 = codes "a1"

unfoldable pub mnemonic_text : Mnemonic → Text
mnemonic_text addi = codes "addi"
mnemonic_text li = codes "li"
mnemonic_text sw = codes "sw"
mnemonic_text lw = codes "lw"
mnemonic_text la = codes "la"
mnemonic_text call = codes "call"
mnemonic_text lb = codes "lb"
mnemonic_text sb = codes "sb"
mnemonic_text mv = codes "mv"
mnemonic_text nop = codes "NOP"
mnemonic_text ebreak = codes "EBREAK"

-- `strconv.FormatInt(n, 10)`
unfoldable pub int_text : ℤ → Text
int_text (pos n) = decimal n
int_text (negsuc n) = codes "-" ++ decimal (n + 1)

unfoldable pub operand_text : Operand → Text
unfolding reg_text int_text
operand_text (reg r) = reg_text r
operand_text (imm z) = int_text z
operand_text (mem n r) = decimal n ++ (codes "(" ++ (reg_text r ++ codes ")"))
operand_text (label t) = t

-- A call names its routine.
unfoldable pub has_callee : Mnemonic → List Operand → Bool
has_callee call [] = false
has_callee _ _ = true

abbrev pub IsNamed : Instruction → Type 0
IsNamed i = has_callee i.name i.operands ≡ true
