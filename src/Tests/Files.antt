-- ===== src/Tests/Files.antt =====
-- The theorems on the texts of files, at small inputs.
use erigon_risc_v_executable.Prelude.{
  ◌≡◌, refl, List, [], ◌∷◌, some, false, Text, map, All, codes, arith,
}
use erigon_risc_v_executable.Assembly.{has_callee, IsNamed, Instruction, instr, call, label}
use erigon_risc_v_executable.Emit.{ebreak_instr}
use erigon_risc_v_executable.Compiler.{word_lines, file_lines, open_vm, open_vm_line, is_ebreak}
use erigon_risc_v_executable.Compiler.Limbs.{limbs_value, word_lines-limbs_value}
use erigon_risc_v_executable.Compiler.Strip.{file_lines-open_vm}
use erigon_risc_v_executable.Machine.{Machine, exec}
use erigon_risc_v_executable.Tests.{test_deps, test_deps-IsDeps, test_linked}

abbrev test_code : List Instruction
test_code =
    ebreak_instr ∷ instr call (label (codes "add256_stack_scratch") ∷ []) ∷ ebreak_instr ∷ []

word_lines-limbs_value_example :
    limbs_value (word_lines 8 0 (test_deps.bytes32 4294967298)) ≡ 4294967298
word_lines-limbs_value_example =
    word_lines-limbs_value test_deps 4294967298 test_deps-IsDeps (omega arith)

test_code-IsNamed : All IsNamed test_code
unfolding has_callee
test_code-IsNamed = (refl, (refl, (refl, tt)))

file_lines-open_vm_example :
    (shown : List Instruction) × (lines : List Text) × (file_lines open_vm test_code ≡ some lines)
    × (map (λ i. open_vm_line i.name i) shown ≡ map some lines)
    × (All (λ i. is_ebreak i.name ≡ false) shown)
    × ((m : Machine) → exec test_linked shown m ≡ exec test_linked test_code m)
file_lines-open_vm_example = file_lines-open_vm test_linked test_code test_code-IsNamed
