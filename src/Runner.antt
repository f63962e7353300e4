-- ===== src/Runner.antt =====
-- prover/unicorn_runner.go, `printStackState`: the EVM's stack, read back from the emulated machine.
-- A word is read where each of its bytes is mapped. Registers and addresses have 32 bits, so that
-- the sums in uint64 do not wrap.
pub mod Decode
pub mod Execute
pub mod Snapshots
use erigon_risc_v_executable.Prelude.{
  ℕ, zero, suc, ◌+◌, ◌-◌, ◌/◌, ◌==◌, List, [], ◌∷◌, ◌++◌, Option, none, some, Bool, false, ltb, leb,
  ◌&&◌, ◌||◌, if◌then◌else◌,
}
use erigon_risc_v_executable.Assembly.{sp, s3}
use erigon_risc_v_executable.Deps.{Deps, bytes_be}
use erigon_risc_v_executable.Machine.{Machine, read_word}

-- an address of a byte, in one of the ranges that were mapped, each its start and its size
unfoldable pub byte_mapped : List (ℕ × ℕ) → ℕ → Bool
byte_mapped [] a = false
byte_mapped ((base, size) ∷ ranges) a = (leb base a && ltb a (base + size)) || byte_mapped ranges a

-- `MemRead(addr, 4)` has no error.
unfoldable pub word_mapped : List (ℕ × ℕ) → ℕ → Bool
unfolding byte_mapped
word_mapped ranges a =
    byte_mapped ranges a
    && byte_mapped ranges (a + 1)
    && byte_mapped ranges (a + 2)
    && byte_mapped ranges (a + 3)

module _ (d : Deps) (mapped : ℕ → Bool) (f : ℕ → ℕ) where
  -- The loop over the eight words of an entry, `left` to go: each word, big-endian, stands in front of
  -- those before.
  unfoldable pub entry_bytes : ℕ → ℕ → List ℕ → Option (List ℕ)
  entry_bytes zero addr result = some result
  entry_bytes (suc left) addr result =
      let rest = entry_bytes left (addr + 4) (bytes_be 4 (read_word f addr) ++ result) in
      if mapped addr then rest else none

  -- The loop over the entries, `left` to go: each entry stands in front of those before.
  unfoldable pub entries : ℕ → ℕ → List ℕ → Option (List ℕ)
  unfolding entry_bytes
  entries zero addr stack = some stack
  entries (suc left) addr stack = elim (entry_bytes 8 addr []) [
    | none ↦ none
    | some result ↦ entries left (addr + 32) (d.set_bytes result ∷ stack)
  ]

unfoldable pub stack_top : ℕ → ℕ → Machine → ℕ
stack_top stack_base mem_size m = if m.regs s3 == 0 then stack_base + mem_size - 16 else m.regs s3

-- `none` is an error: a stack pointer above the top, or an address that is not mapped.
unfoldable pub print_stack_state : Deps → (ℕ → Bool) → ℕ → ℕ → Machine → Option (List ℕ)
unfolding entries stack_top
print_stack_state d mapped stack_base mem_size m =
    let top = stack_top stack_base mem_size m in
    if ltb top (m.regs sp)
    then none
    else entries d mapped m.memory ((top - m.regs sp) / 4 / 8) (m.regs sp) []
