-- ===== src/Runner/Decode.antt =====
-- What `printStackState` (prover/unicorn_runner.go) reads is the stack that the emitted code keeps.
use erigon_risc_v_executable.Prelude.{
  ℕ, zero, suc, ◌+◌, ◌-◌, ◌*◌, ◌/◌, ◌^◌, ◌<◌, ◌≤◌, ◌≡◌, refl, ap, ◌∙◌, List, [], ◌∷◌, ◌++◌, some,
  Bool, true, map, le→ltb, length, arith,
}
use erigon_risc_v_executable.Assembly.{sp}
use erigon_risc_v_executable.Deps.{Deps, IsDeps, big_endian, big_endian_from, bytes_be}
use erigon_risc_v_executable.Machine.{Machine, read_word}
use erigon_risc_v_executable.Machine.Stack.{words_at, wide_stack, IsBytes, read_word-lt}
use erigon_risc_v_executable.Runner.Execute.{stack_addr, mem_size, setup_calls, ranges_of, mapped}
use erigon_risc_v_executable.Runner.{
  byte_mapped, entry_bytes, entries, stack_top, print_stack_state,
}

-- The number of which the words are the limbs, the lowest first.
unfoldable pub slot_value : List ℕ → ℕ
slot_value [] = 0
slot_value (w ∷ ws) = w + 2 ^ 32 * slot_value ws

-- `reverse`, onto a list
unfoldable pub reverse_onto : List ℕ → List ℕ → List ℕ
reverse_onto [] ys = ys
reverse_onto (x ∷ xs) ys = reverse_onto xs (x ∷ ys)

big_endian-word :
    (acc w : ℕ) (rest : List ℕ)
    → w < 2 ^ 32
    → big_endian_from acc (bytes_be 4 w ++ rest) ≡ big_endian_from (acc * 2 ^ 32 + w) rest
unfolding big_endian_from bytes_be
big_endian-word acc w rest h = ap (λ a. big_endian_from a rest) (omega (arith, h))

module _ (f : ℕ → ℕ) (bytes : IsBytes f) (mapped : ℕ → Bool) (low high : ℕ)
    (all_mapped : (a : ℕ) → low ≤ a → a + 4 ≤ high → mapped a ≡ true) where
  -- The bytes of the words, in front of those that are there.
  word_bytes : ℕ → ℕ → List ℕ → List ℕ
  word_bytes zero addr result = result
  word_bytes (suc left) addr result =
      word_bytes left (addr + 4) (bytes_be 4 (read_word f addr) ++ result)

  entry_bytes-eq :
      (d : Deps) (left addr : ℕ) (result : List ℕ)
      → low ≤ addr
      → addr + 4 * left ≤ high
      → entry_bytes d mapped f left addr result ≡ some (word_bytes left addr result)
  unfolding entry_bytes word_bytes
  entry_bytes-eq d zero addr result lo hi = refl
  entry_bytes-eq d (suc left) addr result lo hi =
      rw (all_mapped addr lo (omega (arith, hi)))
        (entry_bytes-eq d left (addr + 4) _ (omega (arith, lo)) (omega (arith, hi)))

  -- Read big-endian, with the bytes that are there behind them.
  big_endian-word_bytes :
      (left addr : ℕ) (result : List ℕ)
      → big_endian_from 0 (word_bytes left addr result)
        ≡ big_endian_from (slot_value (words_at f addr left)) result
  unfolding word_bytes slot_value
  big_endian-word_bytes zero addr result = refl
  big_endian-word_bytes (suc left) addr result =
      big_endian-word_bytes left (addr + 4) _
      ∙ big_endian-word (slot_value (words_at f (addr + 4) left)) (read_word f addr) result
          (read_word-lt f addr bytes)
      ∙ ap (λ a. big_endian_from a result) (omega arith)

  length-word_bytes : (addr : ℕ) → length (word_bytes 8 addr []) ≡ 32
  unfolding word_bytes bytes_be
  length-word_bytes addr = refl

  module _ (d : Deps) (ok : IsDeps d) where
    slot_read : (addr : ℕ) → d.set_bytes (word_bytes 8 addr []) ≡ slot_value (words_at f addr 8)
    unfolding big_endian big_endian_from
    slot_read addr =
        ok.set_bytes_lem (word_bytes 8 addr []) (omega (arith, length-word_bytes addr))
        ∙ big_endian-word_bytes 8 addr []

    entries-eq :
        (k addr : ℕ) (stack : List ℕ)
        → low ≤ addr
        → addr + 32 * k ≤ high
        → entries d mapped f k addr stack
          ≡ some (reverse_onto (map slot_value (wide_stack f addr k)) stack)
    unfolding entries reverse_onto
    entries-eq zero addr stack lo hi = refl
    entries-eq (suc k) addr stack lo hi =
        rw (entry_bytes-eq d 8 addr [] lo (omega (arith, hi)), entries, slot_read addr)
          (entries-eq k (addr + 32) (slot_value (words_at f addr 8) ∷ stack) (omega (arith, lo))
            (omega (arith, hi)))

stack-byte_mapped :
    (a : ℕ)
    → stack_addr ≤ a
    → a < stack_addr + mem_size
    → byte_mapped (ranges_of setup_calls) a ≡ true
unfolding byte_mapped ranges_of
stack-byte_mapped a lo hi = ground arith

-- Every word of the stack's range can be read.
stack-mapped : (a : ℕ) → stack_addr ≤ a → a + 4 ≤ stack_addr + mem_size → mapped a ≡ true
unfolding mapped
stack-mapped a lo hi =
    rw
      (
        stack-byte_mapped a lo (omega (arith, hi)),
        stack-byte_mapped (a + 1) (omega (arith, lo)) (omega (arith, hi)),
        stack-byte_mapped (a + 2) (omega (arith, lo)) (omega (arith, hi)),
        stack-byte_mapped (a + 3) (omega (arith, lo)) (omega (arith, hi)),
      )
      refl

-- On the memory that Execute maps: with libraries that do what is documented, a memory of bytes,
-- the stack pointer in the range mapped for the stack, and the logical top k slots above it and
-- within the range, every word that the runner reads is mapped, and it reads the values of the k
-- slots above the stack pointer, each from its eight limbs, the last slot first.
pub print_stack_state-reads :
    (d : Deps) (k : ℕ) (m : Machine)
    → IsDeps d
    → IsBytes m.memory
    → stack_addr ≤ m.regs sp
    → stack_top stack_addr mem_size m ≡ m.regs sp + 32 * k
    → stack_top stack_addr mem_size m ≤ stack_addr + mem_size
    → print_stack_state d mapped stack_addr mem_size m
      ≡ some (reverse_onto (map slot_value (wide_stack m.memory (m.regs sp) k)) [])
unfolding print_stack_state
print_stack_state-reads d k m ok bytes low top high =
    let count : (m.regs sp + 32 * k - m.regs sp) / 4 / 8 ≡ k = omega arith in
    let below : m.regs sp + 32 * k ≤ stack_addr + mem_size = omega (arith, top, high) in
    rw (top, le→ltb (m.regs sp + 32 * k) (m.regs sp) (omega arith), count)
      (entries-eq m.memory bytes mapped stack_addr (stack_addr + mem_size) stack-mapped d ok k
        (m.regs sp) [] low below)
