-- ===== src/Emit.antt =====
-- transpiler/transpiler.go: the methods of `Transpiler` that build a fixed run of RISC-V
-- instructions. None of them reads the transpiler's state.
pub mod Copy
pub mod Effect
pub mod Load
pub mod Frame
use erigon_risc_v_executable.Prelude.{
  ℕ, zero, suc, ◌+◌, ◌-◌, ◌*◌, ◌%◌, ◌^◌, List, [], ◌∷◌, ◌++◌, Text, String, codes, ℤ, pos, negsuc,
}
use erigon_risc_v_executable.Assembly.{
  Reg, sp, s1, s3, t0, t1, t2, a0, a1, addi, li, sw, lw, la, call, lb, sb, nop, ebreak, reg, imm,
  mem, label, Instruction, instr,
}

-- `addi rd, rs, n`
abbrev pub add_imm : Reg → Reg → ℤ → Instruction
add_imm rd rs z = instr addi (reg rd ∷ reg rs ∷ imm z ∷ [])

-- `lw rd, n(rs)` and `sw rs, n(rd)`
abbrev pub load_word : Reg → ℕ → Reg → Instruction
load_word rd n rs = instr lw (reg rd ∷ mem n rs ∷ [])

abbrev pub store_word : Reg → ℕ → Reg → Instruction
store_word rs n rd = instr sw (reg rs ∷ mem n rd ∷ [])

abbrev pub ebreak_instr : Instruction
ebreak_instr = instr ebreak []

abbrev pub nop_instr : Instruction
nop_instr = instr nop []

-- `sp -= 32`, the -32 of the immediates being `negsuc 31`
unfoldable pub push_opcode : ℤ → List Instruction
push_opcode value =
    add_imm sp sp (negsuc 31) ∷ instr li (reg t0 ∷ imm value ∷ []) ∷ store_word t0 0 sp ∷ []

unfoldable pub dup_opcode : ℕ → List Instruction
dup_opcode index =
    let sp_index = 32 * (index - 1) in
    load_word t0 sp_index sp ∷ add_imm sp sp (negsuc 31) ∷ store_word t0 0 sp ∷ []

unfoldable pub swap_opcode : ℕ → List Instruction
swap_opcode index =
    let sp_index = 32 * index in
    load_word t0 0 sp
    ∷ load_word t1 sp_index sp
    ∷ store_word t1 0 sp
    ∷ store_word t0 sp_index sp
    ∷ []

unfoldable pub pop_stack : List Instruction
pop_stack = add_imm sp sp (pos 32) ∷ []

-- A call of a library routine with the addresses of its two operands in a0 and a1.
abbrev pub routine : ℕ → ℕ → String → List Instruction
routine first second name =
    add_imm a0 sp (pos first)
    ∷ add_imm a1 sp (pos second)
    ∷ instr call (label (codes name) ∷ [])
    ∷ []

abbrev pub routine_unary : String → List Instruction
routine_unary name = add_imm a0 sp (pos 0) ∷ instr call (label (codes name) ∷ []) ∷ []

unfoldable pub add256_call : List Instruction
add256_call = routine 0 32 "add256_stack_scratch"

unfoldable pub mul256_call : List Instruction
mul256_call = routine 0 32 "mul256_stack_scratch"

unfoldable pub sub256_call : List Instruction
sub256_call = routine 0 32 "sub256_stack_scratch"

unfoldable pub div256_call : List Instruction
div256_call = routine 0 32 "div256_stack_scratch"

unfoldable pub and256_call : List Instruction
and256_call = routine 0 32 "and256_stack_scratch"

unfoldable pub or256_call : List Instruction
or256_call = routine 0 32 "or256_stack_scratch"

unfoldable pub xor256_call : List Instruction
xor256_call = routine 0 32 "xor256_stack_scratch"

unfoldable pub not256_call : List Instruction
not256_call = routine_unary "not256_stack_scratch"

unfoldable pub shr256_call : List Instruction
shr256_call = routine 32 0 "shr256_stack_scratch"

unfoldable pub shl256_call : List Instruction
shl256_call = routine 32 0 "shl256_stack_scratch"

unfoldable pub slt256_call : List Instruction
slt256_call = routine 0 32 "slt256_stack_scratch"

unfoldable pub eq256_call : List Instruction
eq256_call = routine 0 32 "eq256_stack_scratch"

unfoldable pub gt256_call : List Instruction
gt256_call = routine 0 32 "gt256_stack_scratch"

unfoldable pub lt256_call : List Instruction
lt256_call = routine 0 32 "lt256_stack_scratch"

unfoldable pub mstore256_call : List Instruction
mstore256_call = routine 0 32 "mstore256_stack_scratch"

unfoldable pub mload256_call : List Instruction
mload256_call = routine_unary "mload256_stack_scratch"

-- The rounds of `mcopyCall` from `i` on, `left` of them; the sums are in uint64.
unfoldable pub mcopy_from : ℕ → ℕ → ℕ → ℕ → List Instruction
mcopy_from zero i dest_offset src_offset = []
mcopy_from (suc left) i dest_offset src_offset =
    (instr li (reg t0 ∷ imm (pos ((src_offset + i) % 2 ^ 64)) ∷ [])
      ∷ instr lb (reg t1 ∷ mem 0 t0 ∷ [])
      ∷ instr li (reg t2 ∷ imm (pos ((dest_offset + i) % 2 ^ 64)) ∷ [])
      ∷ instr sb (reg t1 ∷ mem 0 t2 ∷ [])
      ∷ [])
    ++ mcopy_from left (i + 1) dest_offset src_offset

unfoldable pub mcopy_call : ℕ → ℕ → ℕ → List Instruction
unfolding mcopy_from
mcopy_call dest_offset src_offset length = mcopy_from length 0 dest_offset src_offset

unfoldable pub save_stack_context : List Instruction
save_stack_context =
    add_imm s1 s1 (negsuc 3)
    ∷ store_word sp 0 s1
    ∷ add_imm s1 s1 (negsuc 3)
    ∷ store_word s3 0 s1
    ∷ []

unfoldable pub create_new_stack_frame : List Instruction
create_new_stack_frame = add_imm sp sp (negsuc 1023) ∷ add_imm s3 sp (pos 0) ∷ []

unfoldable pub restore_stack_context : List Instruction
restore_stack_context =
    load_word s3 0 s1 ∷ add_imm s1 s1 (pos 4) ∷ load_word sp 0 s1 ∷ add_imm s1 s1 (pos 4) ∷ []

-- The rounds of the copy loop of `loadFromDataSection`, from word `i` on, `left` of them.
unfoldable pub copy_words : ℕ → ℕ → List Instruction
copy_words zero i = []
copy_words (suc left) i =
    load_word t1 (i * 4) t0 ∷ store_word t1 (i * 4) sp ∷ copy_words left (i + 1)

unfoldable pub load_from_data_section : Text → List Instruction
unfolding copy_words
load_from_data_section name =
    (add_imm sp sp (negsuc 31) ∷ instr la (reg t0 ∷ label name ∷ []) ∷ []) ++ copy_words 8 0
