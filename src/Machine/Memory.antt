-- ===== src/Machine/Memory.antt =====
-- Words of the memory: what a store changes and what it leaves.
use erigon_risc_v_executable.Prelude.{ℕ, ◌+◌, ◌^◌, ◌≤◌, ◌<◌, ◌≡◌, ◌⊎◌, arith}
use erigon_risc_v_executable.Machine.{word, read_word, write_word}

-- The byte at an address that is in range.
byte-write_word :
    (f : ℕ → ℕ) (a v q : ℕ) → a + 4 ≤ 2 ^ 32 → (q < a) ⊎ (a + 4 ≤ q) → write_word f a v q ≡ f q
unfolding write_word
byte-write_word f a v q h k = ground arith

module _ (f : ℕ → ℕ) (a v : ℕ) (in_range : a + 4 ≤ 2 ^ 32) where
  -- A word that was stored is read back.
  pub read-write_same : v < 2 ^ 32 → read_word (write_word f a v) a ≡ v
  unfolding read_word write_word
  read-write_same h = ground arith

  -- A word that does not overlap is left.
  pub read-write_other :
      (b : ℕ)
      → b + 4 ≤ 2 ^ 32
      → (b + 4 ≤ a) ⊎ (a + 4 ≤ b)
      → read_word (write_word f a v) b ≡ read_word f b
  unfolding read_word
  read-write_other b h k = ground (
    arith,
    byte-write_word f a v (word b),
    byte-write_word f a v (word (b + 1)),
    byte-write_word f a v (word (b + 2)),
    byte-write_word f a v (word (b + 3)),
  )
