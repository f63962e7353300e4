-- ===== src/Machine/Stack.antt =====
-- The EVM's stack in the memory: slots of 32 bytes from the stack pointer up, the top first, each of
-- eight little-endian words, as `printStackState` (prover/unicorn_runner.go) reads them.
use erigon_risc_v_executable.Prelude.{
  ℕ, zero, suc, ◌+◌, ◌*◌, ◌^◌, ◌≤◌, ◌<◌, ◌≡◌, refl, ◌∙◌, ◌⊎◌, inr, List, [], ◌∷◌, ap, ap₂,
  get_elem?, some, set, arith,
}
use erigon_risc_v_executable.Machine.{word, read_word, write_word}
use erigon_risc_v_executable.Machine.Memory.{read-write_same, read-write_other}

-- `n` words from an address on
abbrev pub words_at : (ℕ → ℕ) → ℕ → ℕ → List ℕ
words_at f a zero = []
words_at f a (suc n) = read_word f a ∷ words_at f (a + 4) n

-- the lowest words of `k` slots
abbrev pub low_stack : (ℕ → ℕ) → ℕ → ℕ → List ℕ
low_stack f a zero = []
low_stack f a (suc k) = read_word f a ∷ low_stack f (a + 32) k

-- `k` slots whole
abbrev pub wide_stack : (ℕ → ℕ) → ℕ → ℕ → List (List ℕ)
wide_stack f a zero = []
wide_stack f a (suc k) = words_at f a 8 ∷ wide_stack f (a + 32) k

abbrev pub IsBytes : (ℕ → ℕ) → Type 0
IsBytes f = (q : ℕ) → f q < 256

pub read_word-lt : (f : ℕ → ℕ) (a : ℕ) → IsBytes f → read_word f a < 2 ^ 32
unfolding read_word
read_word-lt f a h = omega (arith, h (word a), h (word (a + 1)), h (word (a + 2)), h (word (a + 3)))

pub write_word-IsBytes : (f : ℕ → ℕ) (a v : ℕ) → IsBytes f → IsBytes (write_word f a v)
unfolding write_word
write_word-IsBytes f a v h q = ground (arith, h q)

module _ (f : ℕ → ℕ) (b v : ℕ) (in_range : b + 4 ≤ 2 ^ 32) where
  pub words_at-write_other :
      (a n : ℕ)
      → a + 4 * n ≤ 2 ^ 32
      → (a + 4 * n ≤ b) ⊎ (b + 4 ≤ a)
      → words_at (write_word f b v) a n ≡ words_at f a n
  words_at-write_other a zero h k = refl
  words_at-write_other a (suc n) h k =
      ap₂ ◌∷◌ (read-write_other f b v in_range a (omega arith) (omega arith))
        (words_at-write_other (a + 4) n (omega arith) (omega arith))

  pub low_stack-write_below :
      (a k : ℕ)
      → a + 32 * k ≤ 2 ^ 32
      → b + 4 ≤ a
      → low_stack (write_word f b v) a k ≡ low_stack f a k
  low_stack-write_below a zero h below = refl
  low_stack-write_below a (suc k) h below =
      ap₂ ◌∷◌ (read-write_other f b v in_range a (omega arith) (inr below))
        (low_stack-write_below (a + 32) k (omega arith) (omega arith))

  pub wide_stack-write_below :
      (a k : ℕ)
      → a + 32 * k ≤ 2 ^ 32
      → b + 4 ≤ a
      → wide_stack (write_word f b v) a k ≡ wide_stack f a k
  wide_stack-write_below a zero h below = refl
  wide_stack-write_below a (suc k) h below =
      ap₂ ◌∷◌ (words_at-write_other a 8 (omega arith) (inr below))
        (wide_stack-write_below (a + 32) k (omega arith) (omega arith))

-- The low word of slot `n` is at its place in the list.
pub low_stack-get :
    (f : ℕ → ℕ) (a k n : ℕ)
    → n < k
    → get_elem? (low_stack f a k) n ≡ some (read_word f (a + 32 * n))
low_stack-get f a zero n h = absurd (omega arith)
low_stack-get f a (suc k) zero h = ap some (ap (read_word f) (omega arith))
low_stack-get f a (suc k) (suc n) h =
    low_stack-get f (a + 32) k n (omega arith) ∙ ap some (ap (read_word f) (omega arith))

-- A store to the low word of slot `n` is an update of the list.
pub low_stack-write_slot :
    (f : ℕ → ℕ) (a b k n v : ℕ)
    → b ≡ a + 32 * n
    → n < k
    → a + 32 * k ≤ 2 ^ 32
    → v < 2 ^ 32
    → low_stack (write_word f b v) a k ≡ set (low_stack f a k) n v
low_stack-write_slot f a b zero n v e h fits small = absurd (omega arith)
low_stack-write_slot f a b (suc k) zero v e h fits small =
    let same : a ≡ b = omega arith in
    ap₂ ◌∷◌ (ap (read_word (write_word f b v)) same ∙ read-write_same f b v (omega arith) small)
      (low_stack-write_below f b v (omega arith) (a + 32) k (omega arith) (omega arith))
low_stack-write_slot f a b (suc k) (suc n) v e h fits small =
    ap₂ ◌∷◌ (read-write_other f b v (omega arith) a (omega arith) (omega arith))
      (low_stack-write_slot f (a + 32) b k n v (omega arith) (omega arith) (omega arith) small)
