-- ===== src/Emit/Load.antt =====
-- What the copy loop of `loadFromDataSection` (transpiler/transpiler.go) does to the machine's memory:
-- a word of the data section, all eight limbs of it, becomes the top slot of the EVM's stack.
use erigon_risc_v_executable.Prelude.{
  ℕ, zero, suc, ◌+◌, ◌-◌, ◌*◌, ◌^◌, ◌≤◌, ◌≡◌, refl, sym, ◌∙◌, inl, inr, ◌∷◌, ap, ap₂, some, arith,
  negsuc, to_word, Text, ◌⊎◌,
}
use erigon_risc_v_executable.Assembly.{sp, t0, t1}
use erigon_risc_v_executable.Emit.{copy_words, load_from_data_section}
use erigon_risc_v_executable.Emit.Effect.{moved_down}
use erigon_risc_v_executable.Machine.{Machine, set_reg, Linked, word, read_word, write_word, exec}
use erigon_risc_v_executable.Machine.Memory.{read-write_same, read-write_other}
use erigon_risc_v_executable.Machine.Stack.{
  words_at, wide_stack, IsBytes, read_word-lt, write_word-IsBytes, words_at-write_other,
}

-- `n` words were copied from `src` to `dst`, and the memory outside of the target was left.
record Copied (m m' : Machine) (src dst n : ℕ) : Type 0 where
  kept_sp : m'.regs sp ≡ m.regs sp
  words : words_at m'.memory dst n ≡ words_at m.memory src n
  outside :
      (a : ℕ)
      → a + 4 ≤ 2 ^ 32
      → (a + 4 ≤ dst) ⊎ (dst + 4 * n ≤ a)
      → read_word m'.memory a ≡ read_word m.memory a

copy_words-Copied :
    (l : Linked) (left i src dst : ℕ) (m : Machine)
    → src ≡ m.regs t0 + i * 4
    → dst ≡ m.regs sp + i * 4
    → src + 4 * left ≤ 2 ^ 32
    → dst + 4 * left ≤ 2 ^ 32
    → (src + 4 * left ≤ dst) ⊎ (dst + 4 * left ≤ src)
    → IsBytes m.memory
    → (m' : Machine) × (exec l (copy_words left i) m ≡ some m') × Copied m m' src dst left
unfolding exec copy_words
copy_words-Copied l zero i src dst m e e' h h' d bytes =
    (m, refl, record { kept_sp = refl; words = refl; outside = λ a p q. refl })
copy_words-Copied l (suc left) i src dst m e e' h h' d bytes =
    let v = read_word m.memory (m.regs t0 + i * 4) in
    let f = write_word m.memory (m.regs sp + i * 4) v in
    let in_range : m.regs sp + i * 4 + 4 ≤ 2 ^ 32 = omega (arith, e', h') in
    let (m', runs, c) =
      copy_words-Copied l left (i + 1) (src + 4) (dst + 4)
        (record m { regs = set_reg t1 v m.regs; memory = f }) (omega (arith, e)) (omega (arith, e'))
        (omega (arith, h)) (omega (arith, h')) (omega (arith, d))
        (write_word-IsBytes m.memory (m.regs sp + i * 4) v bytes) in
    (
      m',
      runs,
      record {
        kept_sp = c.kept_sp;
        words =
            ap₂ ◌∷◌
              (c.outside dst (omega (arith, h')) (inl (omega arith))
                ∙ ap (read_word f) e'
                ∙ read-write_same m.memory (m.regs sp + i * 4) v in_range
                    (read_word-lt m.memory _ bytes)
                ∙ ap (read_word m.memory) (sym e))
              (c.words
                ∙ words_at-write_other m.memory (m.regs sp + i * 4) v in_range (src + 4) left
                    (omega (arith, h)) (omega (arith, d, e')));
        outside = λ a p q.
            c.outside a p (omega (arith, q))
            ∙ read-write_other m.memory (m.regs sp + i * 4) v in_range a p (omega (arith, q, e'));
      },
    )

words_at-outside :
    (f g : ℕ → ℕ) (a n lo : ℕ)
    → ((b : ℕ) → b + 4 ≤ 2 ^ 32 → lo ≤ b → read_word f b ≡ read_word g b)
    → lo ≤ a
    → a + 4 * n ≤ 2 ^ 32
    → words_at f a n ≡ words_at g a n
words_at-outside f g a zero lo h p q = refl
words_at-outside f g a (suc n) lo h p q =
    ap₂ ◌∷◌ (h a (omega (arith, q)) p)
      (words_at-outside f g (a + 4) n lo h (omega (arith, p)) (omega (arith, q)))

wide_stack-outside :
    (f g : ℕ → ℕ) (a k lo : ℕ)
    → ((b : ℕ) → b + 4 ≤ 2 ^ 32 → lo ≤ b → read_word f b ≡ read_word g b)
    → lo ≤ a
    → a + 32 * k ≤ 2 ^ 32
    → wide_stack f a k ≡ wide_stack g a k
wide_stack-outside f g a zero lo h p q = refl
wide_stack-outside f g a (suc k) lo h p q =
    ap₂ ◌∷◌ (words_at-outside f g a 8 lo h p (omega (arith, q)))
      (wide_stack-outside f g (a + 32) k lo h (omega (arith, p)) (omega (arith, q)))

-- Loading a word of the data section pushes it whole: when the linker has its label at a place that
-- the new slot does not overlap, the code runs, the stack pointer falls by a slot, the new top is
-- the eight limbs at the label, and the slots below it are those before, all limbs of them.
pub load_from_data_section-wide_stack :
    (l : Linked) (m : Machine) (k src : ℕ) (name : Text)
    → l.labels name ≡ some src
    → 32 ≤ m.regs sp
    → m.regs sp + 32 * k ≤ 2 ^ 32
    → src + 32 ≤ 2 ^ 32
    → (src + 32 ≤ m.regs sp - 32) ⊎ (m.regs sp ≤ src)
    → IsBytes m.memory
    → (m' : Machine) × (exec l (load_from_data_section name) m ≡ some m')
      × (m'.regs sp ≡ m.regs sp - 32)
      × (wide_stack m'.memory (m'.regs sp) (suc k)
          ≡ words_at m.memory src 8 ∷ wide_stack m.memory (m.regs sp) k)
unfolding exec load_from_data_section
load_from_data_section-wide_stack l m k src name linked lo hi fits apart bytes =
    let x = word (m.regs sp + to_word (negsuc 31)) in
    let down : x ≡ m.regs sp - 32 = moved_down (m.regs sp) lo (omega (arith, hi)) in
    let m1 = record m { regs = set_reg t0 src (set_reg sp x m.regs) } in
    let (m', runs, c) =
      copy_words-Copied l 8 0 src x m1 (omega arith) (omega arith) (omega (arith, fits))
        (omega (arith, down, hi, lo)) (omega (arith, down, apart, lo)) bytes in
    (
      m',
      rw linked runs,
      c.kept_sp ∙ down,
      ap (λ a. wide_stack m'.memory a (suc k)) c.kept_sp
          ∙ ap₂ ◌∷◌ c.words (
              ap (λ a. wide_stack m'.memory a k) (omega (arith, down, lo))
              ∙ wide_stack-outside m'.memory m.memory (m.regs sp) k (m.regs sp)
                  (λ b p q. c.outside b p (inr (omega (arith, down, lo, q)))) (omega arith) hi),
    )
