-- ===== src/Machine/Balance.antt =====
-- Code that runs through and moves the stack pointer by whole slots of 32 bytes.
use erigon_risc_v_executable.Prelude.{
  ℕ, zero, suc, ◌+◌, ◌*◌, ◌≡◌, refl, List, [], ◌∷◌, ◌++◌, none, some, Text, ℤ, negsuc, to_word,
  arith, sym, All, All-append, ◌∙◌, inl, inr, Option-cases,
}
use erigon_risc_v_executable.Assembly.{
  sp, s2, t0, t1, la, reg, label, Instruction, instr, has_callee, IsNamed,
}
use erigon_risc_v_executable.Emit.{
  add_imm, load_word, store_word, ebreak_instr, nop_instr, push_opcode, dup_opcode, swap_opcode,
  pop_stack, copy_words, load_from_data_section,
}
use erigon_risc_v_executable.Machine.{Machine, Linked, word, set_reg, step, exec}

module _ (l : Linked) where
  -- From every machine the code runs to its end, the stack pointer rises by `pops` slots and falls
  -- by `pushes`, and s2 is kept. Every call names its routine.
  pub record Balanced (pops pushes : ℕ) (code : List Instruction) : Type 0 where
    pub runs :
        (m : Machine)
        → (m' : Machine) × (exec l code m ≡ some m')
          × (word (m'.regs sp + 32 * pushes) ≡ word (m.regs sp + 32 * pops))
          × (m'.regs s2 ≡ m.regs s2)
    pub named : All IsNamed code

  pub exec-cons :
      (i : Instruction) (c : List Instruction) (m : Machine) {m1 : Machine}
      → step l i m ≡ some m1
      → exec l (i ∷ c) m ≡ exec l c m1
  unfolding exec
  exec-cons i c m h = rw (h, exec) refl

  pub exec-stuck :
      (i : Instruction) (c : List Instruction) (m : Machine)
      → step l i m ≡ none
      → exec l (i ∷ c) m ≡ none
  unfolding exec
  exec-stuck i c m h = rw (h, exec) refl

  pub exec-append :
      (c1 c2 : List Instruction) (m : Machine) {m1 : Machine}
      → exec l c1 m ≡ some m1
      → exec l (c1 ++ c2) m ≡ exec l c2 m1
  exec-append [] c2 m h = unfold exec in ground arith
  exec-append (i ∷ c1) c2 m h = elim (Option-cases (step l i m)) [
    | inl e ↦ let stuck = sym (exec-stuck i c1 m e) ∙ h in cc
    | inr (m2, e) ↦ exec-cons i (c1 ++ c2) m e ∙ exec-append c1 c2 m2 (sym (exec-cons i c1 m e) ∙ h)
  ]

  module _ {a b c e : ℕ} {c1 c2 : List Instruction} where
    pub Balanced-append : Balanced a b c1 → Balanced c e c2 → Balanced (a + c) (b + e) (c1 ++ c2)
    Balanced-append h1 h2 = record {
      runs = λ m.
          let (m1, e1, p1, k1) = h1.runs m in
          let (m2, e2, p2, k2) = h2.runs m1 in
          (m2, exec-append c1 c2 m e1 ∙ e2, omega arith, k2 ∙ k1);
      named = All-append IsNamed c1 c2 h1.named h2.named;
    }

  pub Balanced-resize :
      (a b : ℕ) {a' b' : ℕ} {c : List Instruction}
      → Balanced a b c
      → a ≡ a'
      → b ≡ b'
      → Balanced a' b' c
  Balanced-resize a b h ea eb = record {
    runs = λ m. let (m', e, p, k) = h.runs m in (m', e, omega arith, k);
    named = h.named;
  }

  -- An item that is pushed and popped again counts for nothing.
  pub Balanced-cancel :
      {a b : ℕ} {c : List Instruction} → Balanced (suc a) (suc b) c → Balanced a b c
  Balanced-cancel h = record {
    runs = λ m. let (m', e, p, k) = h.runs m in (m', e, omega arith, k);
    named = h.named;
  }

  pub Balanced-nil : Balanced 0 0 []
  Balanced-nil = record { runs = λ m. (m, unfold exec in refl, refl, refl); named = tt }

  pub Balanced-nop : Balanced 0 0 (nop_instr ∷ [])
  unfolding exec has_callee
  Balanced-nop = record { runs = λ m. (m, refl, refl, refl); named = (refl, tt) }

  pub Balanced-ebreak : Balanced 0 0 (ebreak_instr ∷ [])
  unfolding exec has_callee
  Balanced-ebreak = record { runs = λ m. (m, refl, refl, refl); named = (refl, tt) }

  pub Balanced-pop_stack : Balanced 1 0 pop_stack
  unfolding exec has_callee pop_stack to_word
  Balanced-pop_stack = record { runs = λ m. (_, refl, omega arith, refl); named = (refl, tt) }

  pub Balanced-push_opcode : (z : ℤ) → Balanced 0 1 (push_opcode z)
  unfolding exec has_callee push_opcode to_word
  Balanced-push_opcode z = record {
    runs = λ m. (_, refl, omega arith, refl);
    named = (refl, (refl, (refl, tt)));
  }

  pub Balanced-dup_opcode : (n : ℕ) → Balanced 0 1 (dup_opcode n)
  unfolding exec has_callee dup_opcode to_word
  Balanced-dup_opcode n = record {
    runs = λ m. (_, refl, omega arith, refl);
    named = (refl, (refl, (refl, tt)));
  }

  pub Balanced-swap_opcode : (n : ℕ) → Balanced 0 0 (swap_opcode n)
  unfolding exec has_callee swap_opcode to_word
  Balanced-swap_opcode n = record {
    runs = λ m. (_, refl, omega arith, refl);
    named = (refl, (refl, (refl, (refl, tt))));
  }

  Balanced-copy_word : (n : ℕ) → Balanced 0 0 (load_word t1 n t0 ∷ store_word t1 n sp ∷ [])
  unfolding exec has_callee
  Balanced-copy_word n = record { runs = λ m. (_, refl, refl, refl); named = (refl, (refl, tt)) }

  Balanced-copy_words : (left i : ℕ) → Balanced 0 0 (copy_words left i)
  unfolding copy_words
  Balanced-copy_words zero i = Balanced-nil
  Balanced-copy_words (suc left) i =
      Balanced-append (Balanced-copy_word (i * 4)) (Balanced-copy_words left (i + 1))

  Balanced-la :
      (name : Text) {a : ℕ}
      → l.labels name ≡ some a
      → Balanced 0 1 (add_imm sp sp (negsuc 31) ∷ instr la (reg t0 ∷ label name ∷ []) ∷ [])
  unfolding exec has_callee to_word
  Balanced-la name {a} h = record {
    runs = λ m. (
      record m { regs = set_reg t0 a (set_reg sp (word (m.regs sp + to_word (negsuc 31))) m.regs) },
      rw (h, exec) refl,
      omega arith,
      refl,
    );
    named = (refl, (refl, tt));
  }

  pub Balanced-load_from_data_section :
      (name : Text) {a : ℕ} → l.labels name ≡ some a → Balanced 0 1 (load_from_data_section name)
  unfolding load_from_data_section
  Balanced-load_from_data_section name h =
      Balanced-append (Balanced-la name h) (Balanced-copy_words 8 0)
