-- ===== src/Tests/Stacks.antt =====
-- The theorems on the emitted code, at the machine of the tests.
use erigon_risc_v_executable.Prelude.{
  ℕ, ◌+◌, ◌<◌, ◌≡◌, refl, inr, List, [], ◌∷◌, ◌++◌, some, length, Text, get_elem?, set, pos,
  to_word, codes, arith,
}
use erigon_risc_v_executable.Assembly.{Reg, sp, s1, s3}
use erigon_risc_v_executable.Emit.{
  push_opcode, dup_opcode, swap_opcode, load_from_data_section, save_stack_context,
  create_new_stack_frame, restore_stack_context,
}
use erigon_risc_v_executable.Emit.Effect.{
  HasRoom, push_opcode-low_stack, dup_opcode-low_stack, swap_opcode-low_stack,
}
use erigon_risc_v_executable.Emit.Load.{load_from_data_section-wide_stack}
use erigon_risc_v_executable.Emit.Frame.{Saved, enter-Saved, restore_stack_context-restores}
use erigon_risc_v_executable.Deps.{big_endian}
use erigon_risc_v_executable.Sections.{DataSection, new_data_section, iter}
use erigon_risc_v_executable.Sections.Invariant.{IsIndexed, label_value, new_data_section-IsIndexed}
use erigon_risc_v_executable.Emit.Copy.CallData.{calldataload_call-binds}
use erigon_risc_v_executable.Emit.Copy.{window, calldataload_call}
use erigon_risc_v_executable.Emit.Copy.Window.{byte_or_zero, window_lem}
use erigon_risc_v_executable.Machine.{Machine, exec, read_word, write_word}
use erigon_risc_v_executable.Machine.Stack.{words_at, low_stack, wide_stack}
use erigon_risc_v_executable.Tests.{
  test_deps, test_deps-IsDeps, test_machine, test_linked, test_memory-lt,
}

test_machine-HasRoom : HasRoom test_machine 3
test_machine-HasRoom = record { below = omega arith; above = omega arith }

push_opcode-low_stack_example :
    (m' : Machine) × (exec test_linked (push_opcode (pos 5)) test_machine ≡ some m')
    × (m'.regs sp ≡ 4064)
    × (low_stack m'.memory (m'.regs sp) 4 ≡ to_word (pos 5) ∷ low_stack test_machine.memory 4096 3)
push_opcode-low_stack_example =
    push_opcode-low_stack test_linked test_machine 3 test_machine-HasRoom (pos 5)

dup_opcode-low_stack_example :
    (m' : Machine) × (v : ℕ) × (exec test_linked (dup_opcode 2) test_machine ≡ some m')
    × (m'.regs sp ≡ 4064)
    × (get_elem? (low_stack test_machine.memory 4096 3) 1 ≡ some v)
    × (low_stack m'.memory (m'.regs sp) 4 ≡ v ∷ low_stack test_machine.memory 4096 3)
dup_opcode-low_stack_example =
    dup_opcode-low_stack test_linked test_machine 3 test_machine-HasRoom 2 (omega arith)
      (omega arith) test_memory-lt

swap_opcode-low_stack_example :
    (m' : Machine) × (v w : ℕ) × (exec test_linked (swap_opcode 2) test_machine ≡ some m')
    × (m'.regs sp ≡ 4096)
    × (get_elem? (low_stack test_machine.memory 4096 3) 0 ≡ some v)
    × (get_elem? (low_stack test_machine.memory 4096 3) 2 ≡ some w)
    × (low_stack m'.memory (m'.regs sp) 3
        ≡ set (set (low_stack test_machine.memory 4096 3) 0 w) 2 v)
swap_opcode-low_stack_example =
    swap_opcode-low_stack test_linked test_machine 3 2 (omega arith) (omega arith) (omega arith)
      test_memory-lt

load_from_data_section-wide_stack_example :
    (m' : Machine) × (exec test_linked (load_from_data_section (codes "data_var_0")) test_machine
      ≡ some m')
    × (m'.regs sp ≡ 4064)
    × (wide_stack m'.memory (m'.regs sp) 3
        ≡ words_at test_machine.memory 65536 8 ∷ wide_stack test_machine.memory 4096 2)
load_from_data_section-wide_stack_example =
    load_from_data_section-wide_stack test_linked test_machine 2 65536 (codes "data_var_0") refl
      (omega arith) (omega arith) (omega arith) (inr (omega arith)) test_memory-lt

enter-Saved_example :
    (m' : Machine) × (exec test_linked (save_stack_context ++ create_new_stack_frame) test_machine
      ≡ some m')
    × (m'.regs s1 ≡ 2040)
    × (m'.regs sp ≡ 3072)
    × (m'.regs s3 ≡ 3072)
    × Saved test_machine 2048 m'.memory
enter-Saved_example =
    enter-Saved test_linked test_machine (omega arith) (omega arith) (omega arith) (omega arith)
      (omega arith)

abbrev returning_regs : Reg → ℕ
returning_regs s1 = 2040
returning_regs _ = 3000

-- the machine on return of a callee: its own stack pointer, the caller's s1 less the saved context
abbrev returning : Machine
returning = record {
  regs = returning_regs;
  memory = write_word (write_word test_machine.memory 2044 4096) 2040 5120;
}

returning-Saved : Saved test_machine 2048 returning.memory
unfolding read_word write_word
returning-Saved = record { saved_sp = refl; saved_s3 = refl }

restore_stack_context-restores_example :
    (n' : Machine) × (exec test_linked restore_stack_context returning ≡ some n')
    × (n'.regs sp ≡ 4096)
    × (n'.regs s3 ≡ 5120)
    × (n'.regs s1 ≡ 2048)
    × (n'.memory ≡ returning.memory)
restore_stack_context-restores_example =
    restore_stack_context-restores test_linked test_machine returning (omega arith) (omega arith)
      refl returning-Saved

window_lem_example :
    (w : List ℕ) × (window 4 (1 ∷ 2 ∷ 3 ∷ []) 2 ≡ some w)
    × (length w ≡ 4)
    × ((i : ℕ) → i < 4 → byte_or_zero w i ≡ byte_or_zero (1 ∷ 2 ∷ 3 ∷ []) (2 + i))
window_lem_example = window_lem 4 (1 ∷ 2 ∷ 3 ∷ []) 2 (omega arith)

calldataload_call-binds_example :
    (ds' : DataSection) × (name : Text) × (w : List ℕ) × (calldataload_call test_deps 1
        (5 ∷ 6 ∷ [])
        new_data_section
      ≡ some (ds', load_from_data_section name))
    × (length w ≡ 32)
    × ((i : ℕ) → i < 32 → byte_or_zero w i ≡ byte_or_zero (5 ∷ 6 ∷ []) (1 + i))
    × (label_value (iter ds') name ≡ some (big_endian w))
    × IsIndexed test_deps ds'
calldataload_call-binds_example =
    calldataload_call-binds test_deps 1 (5 ∷ 6 ∷ []) new_data_section test_deps-IsDeps (omega arith)
      (new_data_section-IsIndexed test_deps)
