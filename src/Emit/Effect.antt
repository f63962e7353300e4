-- ===== src/Emit/Effect.antt =====
-- What the stack code of transpiler/transpiler.go does to the EVM's stack in the machine's memory.
use erigon_risc_v_executable.Prelude.{
  ℕ, suc, ◌+◌, ◌-◌, ◌*◌, ◌^◌, ◌≤◌, ◌<◌, ◌≡◌, refl, ◌∙◌, ◌∷◌, ap, ap₂, get_elem?, some, set, arith,
  ℤ, negsuc, to_word, to_word-lt,
}
use erigon_risc_v_executable.Assembly.{sp}
use erigon_risc_v_executable.Emit.{push_opcode, dup_opcode, swap_opcode, pop_stack}
use erigon_risc_v_executable.Machine.{Machine, Linked, word, read_word, write_word, exec}
use erigon_risc_v_executable.Machine.Memory.{read-write_same}
use erigon_risc_v_executable.Machine.Stack.{
  low_stack, IsBytes, read_word-lt, low_stack-write_below, low_stack-get, low_stack-write_slot,
}

-- `k` slots lie above the stack pointer, and there is room for one more below it.
pub record HasRoom (m : Machine) (k : ℕ) : Type 0 where
  pub below : 32 ≤ m.regs sp
  pub above : m.regs sp + 32 * k ≤ 2 ^ 32

-- `addi sp, sp, -32`
pub moved_down : (x : ℕ) → 32 ≤ x → x ≤ 2 ^ 32 → word (x + to_word (negsuc 31)) ≡ x - 32
unfolding to_word
moved_down x lo hi = omega (arith, lo, hi)

+0 : (n : ℕ) → n + 0 ≡ n
+0 n = omega arith

module _ (l : Linked) (m : Machine) (k : ℕ) (room : HasRoom m k) where
  -- A word stored in a new slot is the new top's lowest word; the other slots stay.
  new_slot :
      (a b v : ℕ)
      → a ≡ m.regs sp - 32
      → b ≡ m.regs sp - 32
      → v < 2 ^ 32
      → low_stack (write_word m.memory b v) a (suc k) ≡ v ∷ low_stack m.memory (m.regs sp) k
  new_slot a b v d e small =
      let next : a + 32 ≡ m.regs sp = omega (arith, room.below) in
      let same : a ≡ b = omega arith in
      ap₂ ◌∷◌
        (ap (read_word (write_word m.memory b v)) same
          ∙ read-write_same m.memory b v (omega (arith, room.above)) small)
        (ap (λ c. low_stack (write_word m.memory b v) c k) next
          ∙ low_stack-write_below m.memory b v (omega (arith, room.above)) (m.regs sp) k room.above
              (omega arith))

  down : word (m.regs sp + to_word (negsuc 31)) ≡ m.regs sp - 32
  down = moved_down (m.regs sp) room.below (omega (arith, room.above))

  -- A short push runs on every machine with room below the stack pointer, lowers it by a slot, and
  -- the slots' lowest words are those before with the pushed number in front.
  pub push_opcode-low_stack :
      (z : ℤ)
      → (m' : Machine) × (exec l (push_opcode z) m ≡ some m')
        × (m'.regs sp ≡ m.regs sp - 32)
        × (low_stack m'.memory (m'.regs sp) (suc k) ≡ to_word z ∷ low_stack m.memory (m.regs sp) k)
  unfolding exec push_opcode
  push_opcode-low_stack z = (_, refl, down, new_slot _ _ _ down (+0 _ ∙ down) (to_word-lt z))

  -- DUPn, for n from 1 to the number of slots, on every machine with room below the stack pointer
  -- and a memory of bytes, lowers the stack pointer by a slot, and the slots' lowest words are
  -- those before with a copy of the n-th in front.
  pub dup_opcode-low_stack :
      (n : ℕ)
      → 1 ≤ n
      → n ≤ k
      → IsBytes m.memory
      → (m' : Machine) × (v : ℕ) × (exec l (dup_opcode n) m ≡ some m')
        × (m'.regs sp ≡ m.regs sp - 32)
        × (get_elem? (low_stack m.memory (m.regs sp) k) (n - 1) ≡ some v)
        × (low_stack m'.memory (m'.regs sp) (suc k) ≡ v ∷ low_stack m.memory (m.regs sp) k)
  unfolding exec dup_opcode
  dup_opcode-low_stack n lo hi bytes = (
    _,
    read_word m.memory (m.regs sp + 32 * (n - 1)),
    refl,
    down,
    low_stack-get m.memory (m.regs sp) k (n - 1) (omega arith),
    new_slot _ _ _ down (+0 _ ∙ down) (read_word-lt m.memory _ bytes),
  )

-- SWAPn, for n from 1 to below the number of slots, leaves the stack pointer, and exchanges the
-- lowest words of the top slot and of slot n; the lowest words of the other slots stay.
pub swap_opcode-low_stack :
    (l : Linked) (m : Machine) (k n : ℕ)
    → 1 ≤ n
    → n < k
    → m.regs sp + 32 * k ≤ 2 ^ 32
    → IsBytes m.memory
    → (m' : Machine) × (v w : ℕ) × (exec l (swap_opcode n) m ≡ some m')
      × (m'.regs sp ≡ m.regs sp)
      × (get_elem? (low_stack m.memory (m.regs sp) k) 0 ≡ some v)
      × (get_elem? (low_stack m.memory (m.regs sp) k) n ≡ some w)
      × (low_stack m'.memory (m'.regs sp) k ≡ set (set (low_stack m.memory (m.regs sp) k) 0 w) n v)
unfolding exec swap_opcode
swap_opcode-low_stack l m k n lo hi fits bytes =
    let x = m.regs sp in
    (
      _,
      read_word m.memory (x + 0),
      read_word m.memory (x + 32 * n),
      refl,
      refl,
      low_stack-get m.memory x k 0 (omega arith),
      low_stack-get m.memory x k n hi,
      low_stack-write_slot _ x _ k n _ refl hi fits (read_word-lt m.memory _ bytes)
          ∙ ap (λ s. set s n (read_word m.memory (x + 0)))
              (low_stack-write_slot m.memory x (x + 0) k 0 _ refl (omega arith) fits
                (read_word-lt m.memory _ bytes)),
    )

-- A pop leaves the memory, and the slots' lowest words are those before without the first, as long
-- as the address space does not end with the popped slot.
pub pop_stack-low_stack :
    (l : Linked) (m : Machine) (k : ℕ)
    → m.regs sp + 32 < 2 ^ 32
    → (m' : Machine) × (v : ℕ) × (exec l pop_stack m ≡ some m')
      × (m'.memory ≡ m.memory)
      × (low_stack m.memory (m.regs sp) (suc k) ≡ v ∷ low_stack m'.memory (m'.regs sp) k)
unfolding exec pop_stack to_word
pop_stack-low_stack l m k h =
    let up : m.regs sp + 32 ≡ word (m.regs sp + 32) = omega (arith, h) in
    (
      _,
      read_word m.memory (m.regs sp),
      refl,
      refl,
      ap (λ a. read_word m.memory (m.regs sp) ∷ low_stack m.memory a k) up,
    )
