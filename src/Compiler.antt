-- ===== src/Compiler.antt =====
-- prover/compiler.go: the texts of an assembly file, for the emulator and for OpenVM. The embedded
-- library of routines is a parameter.
pub mod Limbs
pub mod Strip
use erigon_risc_v_executable.Prelude.{
  ℕ, zero, suc, ◌+◌, ◌-◌, ◌*◌, ◌/◌, ◌%◌, ◌^◌, List, [], ◌∷◌, ◌++◌, Option, none, some, Bool, true,
  false, Text, codes, ltb, lookup, Assoc, if◌then◌else◌, map,
}
use erigon_risc_v_executable.Assembly.{
  Mnemonic, call, ebreak, Operand, Instruction, DataVariable, AssemblyFile, mnemonic_text,
  operand_text,
}
use erigon_risc_v_executable.Deps.{Deps}

pub data RuntimeTarget : Type 0 where
  unicorn open_vm : RuntimeTarget

-- `strings.Join`
unfoldable pub join : Text → List Text → Text
join sep [] = []
join sep (t ∷ []) = t
join sep (t ∷ u ∷ ts) = t ++ (sep ++ join sep (u ∷ ts))

-- a byte of an array, whose index is in range
unfoldable pub byte_at : List ℕ → ℕ → ℕ
byte_at [] i = 0
byte_at (b ∷ bs) zero = b
byte_at (b ∷ bs) (suc i) = byte_at bs i

-- The word of round `i` in `generateDataSection`. The bytes are shifted apart, so that `|` is a sum.
unfoldable pub word_of : List ℕ → ℕ → ℕ
unfolding byte_at
word_of bytes i =
    let offset = (7 - i) * 4 in
    byte_at bytes (offset + 3)
    + byte_at bytes (offset + 2) * 2 ^ 8
    + byte_at bytes (offset + 1) * 2 ^ 16
    + byte_at bytes offset * 2 ^ 24

-- `%08x` of a word
unfoldable pub hex_digit : ℕ → ℕ
hex_digit n = if ltb n 10 then b'0' + n else b'a' + (n - 10)

unfoldable pub hex_digits : ℕ → ℕ → Text
unfolding hex_digit
hex_digits zero n = []
hex_digits (suc k) n = hex_digits k (n / 16) ++ hex_digit (n % 16) ∷ []

-- the rounds of the inner loop from `i` on, `left` of them
unfoldable pub word_lines : ℕ → ℕ → List ℕ → List Text
unfolding word_of hex_digits
word_lines zero i bytes = []
word_lines (suc left) i bytes =
    (codes "    .word 0x" ++ hex_digits 8 (word_of bytes i)) ∷ word_lines left (i + 1) bytes

unfoldable pub data_lines : Deps → List DataVariable → List Text
unfolding word_lines
data_lines d [] = []
data_lines d (x ∷ xs) =
    (x.name ++ codes ":") ∷ (word_lines 8 0 (d.bytes32 x.value) ++ data_lines d xs)

unfoldable pub generate_data_section : Deps → AssemblyFile → Text
unfolding data_lines join
generate_data_section d a = join (codes "\n") (data_lines d a.data_section)

-- the routines that OpenVM has instructions for
abbrev pub open_vm_precompiles : Assoc Text
open_vm_precompiles =
    (codes "add256_stack_scratch", codes "openvm_add256_stack_scratch")
    ∷ (codes "eq256_stack_scratch", codes "openvm_eq256_stack_scratch")
    ∷ (codes "lt256_stack_scratch", codes "openvm_lt256_stack_scratch")
    ∷ (codes "gt256_stack_scratch", codes "openvm_gt256_stack_scratch")
    ∷ (codes "shr256_stack_scratch", codes "openvm_shr256_stack_scratch")
    ∷ (codes "not256_stack_scratch", codes "openvm_not256_stack_scratch")
    ∷ []

unfoldable pub open_vm_name : Text → Text
open_vm_name name = elim (lookup name open_vm_precompiles) [ none ↦ name | some other ↦ other ]

unfoldable pub is_ebreak : Mnemonic → Bool
is_ebreak ebreak = true
is_ebreak _ = false

unfoldable pub plain_line : Instruction → Text
unfolding join mnemonic_text operand_text
plain_line i =
    codes "\t"
    ++ (mnemonic_text i.name ++ (codes " " ++ join (codes ", ") (map operand_text i.operands)))

-- a call for OpenVM; `none` is the panic where it has no operand
unfoldable pub open_vm_call : List Operand → Option Text
unfolding open_vm_name mnemonic_text operand_text
open_vm_call [] = none
open_vm_call (o ∷ _) =
    some (codes "\t" ++ (mnemonic_text call ++ (codes " " ++ open_vm_name (operand_text o))))

unfoldable pub open_vm_line : Mnemonic → Instruction → Option Text
unfolding plain_line open_vm_call
open_vm_line call i = open_vm_call i.operands
open_vm_line _ i = some (plain_line i)

-- the lines of `toFile`
unfoldable pub file_lines : RuntimeTarget → List Instruction → Option (List Text)
unfolding plain_line open_vm_line is_ebreak
file_lines target [] = some []
file_lines unicorn (i ∷ is) = elim (file_lines unicorn is) [
  | none ↦ none
  | some ls ↦ some (plain_line i ∷ ls)
]
file_lines open_vm (i ∷ is) =
    let rest = file_lines open_vm is in
    if is_ebreak i.name then rest else elim (open_vm_line i.name i) [
      | none ↦ none
      | some l ↦ elim rest [ none ↦ none | some ls ↦ some (l ∷ ls) ]
    ]

unfoldable pub to_file : RuntimeTarget → AssemblyFile → Option Text
unfolding file_lines join
to_file target a = elim (file_lines target a.instructions) [
  | none ↦ none
  | some ls ↦ some (join (codes "\n") ls)
]

unfoldable pub to_zk_file : AssemblyFile → Option Text
unfolding to_file
to_zk_file a = to_file open_vm a

module _ (d : Deps) (lib_file : Text) where
  unfoldable pub to_debug_file : AssemblyFile → Option Text
  unfolding to_file generate_data_section
  to_debug_file a = elim (to_file unicorn a) [
    | none ↦ none
    | some instructions ↦ some (
        codes "\n.section .data\n"
        ++ (generate_data_section d a
            ++ (codes "\n\n.section .text\n.global execute\nexecute:\n"
                ++ (instructions ++ (codes " \n    jr x0\n" ++ (lib_file ++ codes "\n\t"))))))
  ]

  unfoldable pub to_tool_chain_compatible_assembly : AssemblyFile → Option Text
  unfolding to_zk_file generate_data_section
  to_tool_chain_compatible_assembly a = elim (to_zk_file a) [
    | none ↦ none
    | some instructions ↦ some (
        codes "\n.section .data\n"
        ++ (generate_data_section d a
            ++ (codes
                  "\n\n.section .text\n.global execute\nexecute:\n\t# Save stack\n\tmv s2, sp\n\tmv s1, ra\n\n"
                ++ (instructions
                    ++ (codes "\n\n\t# Restore stack\n\tmv sp, s2\n\tmv ra, s1\n\tret\n\n"
                        ++ (lib_file ++ codes "\n\t"))))))
  ]
