-- ===== src/Emit/Frame.antt =====
-- `saveStackContext`, `createNewStackFrame` and `restoreStackContext` (transpiler/transpiler.go): the
-- stack pointer of a caller over a nested call.
use erigon_risc_v_executable.Prelude.{
  ℕ, ◌+◌, ◌-◌, ◌^◌, ◌≤◌, ◌<◌, ◌≡◌, refl, sym, ◌∙◌, ap, some, ◌++◌, arith, negsuc, to_word,
}
use erigon_risc_v_executable.Assembly.{sp, s1, s3}
use erigon_risc_v_executable.Emit.{
  save_stack_context, create_new_stack_frame, restore_stack_context,
}
use erigon_risc_v_executable.Machine.{Machine, Linked, word, read_word, write_word, exec}
use erigon_risc_v_executable.Machine.Memory.{read-write_same, read-write_other}

-- The caller's two words, on the stack of saved contexts below `a`.
pub record Saved (m : Machine) (a : ℕ) (f : ℕ → ℕ) : Type 0 where
  pub saved_sp : read_word f (a - 4) ≡ m.regs sp
  pub saved_s3 : read_word f (a - 8) ≡ m.regs s3

-- Two words stored one below the other are both read back.
two_words :
    (f : ℕ → ℕ) (x y c a b : ℕ)
    → a ≡ c - 4
    → b ≡ c - 8
    → 8 ≤ c
    → c < 2 ^ 32
    → x < 2 ^ 32
    → y < 2 ^ 32
    → (read_word (write_word (write_word f a x) b y) (c - 4) ≡ x)
      × (read_word (write_word (write_word f a x) b y) (c - 8) ≡ y)
two_words f x y c a b e e' lo hi hx hy =
    let g = write_word f a x in
    (
      read-write_other g b y (omega (arith, e', hi)) (c - 4) (omega (arith, hi))
            (omega (arith, e', lo))
          ∙ ap (read_word g) (sym e)
          ∙ read-write_same f a x (omega (arith, e, hi, lo)) hx,
      ap (read_word (write_word g b y)) (sym e')
          ∙ read-write_same g b y (omega (arith, e', hi, lo)) hy,
    )

-- Entering a nested call saves the caller's stack pointer and frame pointer in the two words below
-- s1, lowers s1 by 8 and the stack pointer by 1024, and marks the new frame by s3, on every machine
-- whose s1 is at least 8 and whose stack pointer is at least 1024.
pub enter-Saved :
    (l : Linked) (m : Machine)
    → 8 ≤ m.regs s1
    → m.regs s1 < 2 ^ 32
    → 1024 ≤ m.regs sp
    → m.regs sp < 2 ^ 32
    → m.regs s3 < 2 ^ 32
    → (m' : Machine) × (exec l (save_stack_context ++ create_new_stack_frame) m ≡ some m')
      × (m'.regs s1 ≡ m.regs s1 - 8)
      × (m'.regs sp ≡ m.regs sp - 1024)
      × (m'.regs s3 ≡ m.regs sp - 1024)
      × Saved m (m.regs s1) m'.memory
unfolding exec save_stack_context create_new_stack_frame to_word
enter-Saved l m lo1 hi1 lo hi hi3 =
    let moved1 : word (word (m.regs s1 + to_word (negsuc 3)) + to_word (negsuc 3)) ≡ m.regs s1 - 8 =
      omega (arith, lo1, hi1) in
    let moved : word (m.regs sp + to_word (negsuc 1023)) ≡ m.regs sp - 1024 =
      omega (arith, lo, hi) in
    let frame : word (word (m.regs sp + to_word (negsuc 1023)) + 0) ≡ m.regs sp - 1024 =
      omega (arith, lo, hi) in
    let (kept_sp, kept_s3) =
      two_words m.memory (m.regs sp) (m.regs s3) (m.regs s1) _ _ (omega (arith, lo1, hi1))
        (omega (arith, lo1, hi1)) lo1 hi1 hi hi3 in
    (_, refl, moved1, moved, frame, record { saved_sp = kept_sp; saved_s3 = kept_s3 })

-- Leaving a nested call: as long as the callee kept s1 and the two saved words, the code runs, the
-- stack pointer, the frame pointer and s1 are the caller's again, and the memory is left.
pub restore_stack_context-restores :
    (l : Linked) (m n : Machine)
    → 8 ≤ m.regs s1
    → m.regs s1 < 2 ^ 32
    → n.regs s1 ≡ m.regs s1 - 8
    → Saved m (m.regs s1) n.memory
    → (n' : Machine) × (exec l restore_stack_context n ≡ some n')
      × (n'.regs sp ≡ m.regs sp)
      × (n'.regs s3 ≡ m.regs s3)
      × (n'.regs s1 ≡ m.regs s1)
      × (n'.memory ≡ n.memory)
unfolding exec restore_stack_context to_word
restore_stack_context-restores l m n lo hi e saved = (
  _,
  refl,
  ap (read_word n.memory) (omega (arith, e, lo, hi)) ∙ saved.saved_sp,
  ap (read_word n.memory) (omega (arith, e, lo, hi)) ∙ saved.saved_s3,
  omega (arith, e, lo, hi),
  refl,
)
