-- ===== src/BlockProver/Jobs.antt =====
-- The choice of the jobs in `processBlockAsUnit` (cmd/block-prove/main.go).
use erigon_risc_v_executable.Prelude.{
  ℕ, zero, suc, ◌+◌, ◌<◌, ◌≤◌, ◌≡◌, refl, sym, ap, ap₂, none-some, some-injective, ◌∙◌, subst, List,
  [], ◌∷◌, Option, none, some, false, Bool-cases, inl, inr, Text, get_elem?, ℤ, pos, negsuc, arith,
}
use erigon_risc_v_executable.BlockProver.{TraceJob, is_limited, select_from, select_jobs}

abbrev job : ℕ → ℕ → Text → TraceJob
job n i h = record { index = n; tx_index = i; tx_hash = h }

is_limited-le :
    (max_txs : ℤ) (i k : ℕ) → i ≤ k → is_limited max_txs k ≡ false → is_limited max_txs i ≡ false
unfolding is_limited
is_limited-le (pos n) i k le h = ground arith
is_limited-le (negsuc n) i k le h = refl

-- The flag `max-txs`: the first so many transactions of the block, all where it is 0 (or negative).
abbrev pub IsAmong : ℤ → ℕ → Type 0
IsAmong (pos zero) i = Unit
IsAmong (pos (suc n)) i = i < suc n
IsAmong (negsuc n) i = Unit

is_limited-IsAmong : (max_txs : ℤ) (i : ℕ) → is_limited max_txs i ≡ false → IsAmong max_txs i
unfolding is_limited
is_limited-IsAmong (pos zero) i h = tt
is_limited-IsAmong (pos (suc n)) i h = ground arith
is_limited-IsAmong (negsuc n) i h = tt

IsAmong-is_limited : (max_txs : ℤ) (i : ℕ) → IsAmong max_txs i → is_limited max_txs i ≡ false
unfolding is_limited
IsAmong-is_limited (pos zero) i h = refl
IsAmong-is_limited (pos (suc n)) i h = ground arith
IsAmong-is_limited (negsuc n) i h = refl

module _ (max_txs : ℤ) where
  -- Job number `k` of those chosen from transaction `i` on: its number, its transaction, and that
  -- the limit allows it.
  select_from_sound :
      (i n k : ℕ) (txs : List (Option Text)) {j : TraceJob}
      → get_elem? (select_from max_txs i n txs) k ≡ some j
      → (j.index ≡ n + k)
        × (is_limited max_txs j.tx_index ≡ false)
        × (m : ℕ) × (j.tx_index ≡ i + m)
        × (k ≤ m)
        × (get_elem? txs m ≡ some (some j.tx_hash))
  unfolding select_from
  select_from_sound i n k [] h = ground arith
  select_from_sound i n k (none ∷ txs) {j} h = elim (Bool-cases (is_limited max_txs i)) [
    | inl stop ↦ absurd (none-some (rw (stop, select_from) at h))
    | inr go ↦
        let (e, free, m, at, le, here) =
          select_from_sound (suc i) n k txs (rw (go, select_from) at h) in
        (e, free, suc m, omega (arith, at), omega (arith, le), here)
  ]
  select_from_sound i n zero (some x ∷ txs) {j} h = elim (Bool-cases (is_limited max_txs i)) [
    | inl stop ↦ absurd (none-some (rw (stop, select_from) at h))
    | inr go ↦
        let e : job n i x ≡ j = some-injective (rw (go, select_from) at h) in
        subst
          (λ j.
            (j.index ≡ n + zero)
            × (is_limited max_txs j.tx_index ≡ false)
            × (m : ℕ) × (j.tx_index ≡ i + m)
            × (zero ≤ m)
            × (get_elem? (some x ∷ txs) m ≡ some (some j.tx_hash)))
          e (omega arith, go, 0, omega arith, omega arith, refl)
  ]
  select_from_sound i n (suc k) (some x ∷ txs) {j} h = elim (Bool-cases (is_limited max_txs i)) [
    | inl stop ↦ absurd (none-some (rw (stop, select_from) at h))
    | inr go ↦
        let (e, free, m, at, le, here) =
          select_from_sound (suc i) (suc n) k txs (rw (go, select_from) at h) in
        (omega (arith, e), free, suc m, omega (arith, at), omega (arith, le), here)
  ]

  -- A transaction that the limit allows has its job.
  select_from_complete :
      (i n m : ℕ) (txs : List (Option Text)) {h : Text}
      → get_elem? txs m ≡ some (some h)
      → is_limited max_txs (i + m) ≡ false
      → (k : ℕ) × (get_elem? (select_from max_txs i n txs) k ≡ some (job (n + k) (i + m) h))
  unfolding select_from
  select_from_complete i n m [] at free = absurd (none-some at)
  select_from_complete i n zero (none ∷ txs) at free = absurd (none-some (some-injective at))
  select_from_complete i n zero (some x ∷ txs) {h} at free =
      let go : is_limited max_txs i ≡ false =
        is_limited-le max_txs i (i + zero) (omega arith) free in
      let same : x ≡ h = some-injective (some-injective at) in
      let en : n ≡ n + zero = omega arith in
      let ei : i ≡ i + zero = omega arith in
      (0, rw (go, select_from) (rw (sym same, sym en, sym ei) refl))
  select_from_complete i n (suc m) (none ∷ txs) {h} at free =
      let go = is_limited-le max_txs i (i + suc m) (omega arith) free in
      let ei : suc i + m ≡ i + suc m = omega arith in
      let (k, there) = select_from_complete (suc i) n m txs at (rw ei free) in
      (k, rw (go, select_from) (there ∙ ap (λ a. some (job (n + k) a h)) ei))
  select_from_complete i n (suc m) (some x ∷ txs) {h} at free =
      let go = is_limited-le max_txs i (i + suc m) (omega arith) free in
      let ei : suc i + m ≡ i + suc m = omega arith in
      let (k, there) = select_from_complete (suc i) (suc n) m txs at (rw ei free) in
      (
        suc k,
        rw (go, select_from)
            (there
              ∙ ap (λ a. some (job (suc n + k) a h)) ei
              ∙ ap (λ a. some (job a (i + suc m) h)) (omega arith)),
      )

  select_from_ordered :
      (i n k1 k2 : ℕ) (txs : List (Option Text)) {j1 j2 : TraceJob}
      → get_elem? (select_from max_txs i n txs) k1 ≡ some j1
      → get_elem? (select_from max_txs i n txs) k2 ≡ some j2
      → k1 < k2
      → j1.tx_index < j2.tx_index
  unfolding select_from
  select_from_ordered i n k1 k2 [] h1 h2 lt = absurd (none-some h1)
  select_from_ordered i n k1 k2 (none ∷ txs) h1 h2 lt = elim (Bool-cases (is_limited max_txs i)) [
    | inl stop ↦ absurd (none-some (rw (stop, select_from) at h1))
    | inr go ↦
        select_from_ordered (suc i) n k1 k2 txs (rw (go, select_from) at h1)
          (rw (go, select_from) at h2) lt
  ]
  select_from_ordered i n k1 zero (some x ∷ txs) h1 h2 lt = absurd (omega arith)
  select_from_ordered i n zero (suc k2) (some x ∷ txs) {j1} {j2} h1 h2 lt =
      elim (Bool-cases (is_limited max_txs i)) [
        | inl stop ↦ absurd (none-some (rw (stop, select_from) at h1))
        | inr go ↦
            let e : job n i x ≡ j1 = some-injective (rw (go, select_from) at h1) in
            let (_, _, m, at, _, _) =
              select_from_sound (suc i) (suc n) k2 txs (rw (go, select_from) at h2) in
            omega (arith, at, ap (λ j. j.tx_index) e)
      ]
  select_from_ordered i n (suc k1) (suc k2) (some x ∷ txs) h1 h2 lt =
      elim (Bool-cases (is_limited max_txs i)) [
        | inl stop ↦ absurd (none-some (rw (stop, select_from) at h1))
        | inr go ↦
            select_from_ordered (suc i) (suc n) k1 k2 txs (rw (go, select_from) at h1)
              (rw (go, select_from) at h2) (omega arith)
      ]

  -- The jobs are the transactions of the right type among the first so many that the flag says, or
  -- among all where it is 0 or negative, in their order: job number k has the index k and the hash
  -- of the transaction that it points at, which is the k-th or a later one and among these; a later
  -- job points at a later transaction; and a transaction of the right type among these has a job
  -- with its hash.
  pub select_jobs_iff :
      (txs : List (Option Text))
      → ((k : ℕ) (j : TraceJob)
          → get_elem? (select_jobs max_txs txs) k ≡ some j
          → (j.index ≡ k)
            × (k ≤ j.tx_index)
            × IsAmong max_txs j.tx_index
            × (get_elem? txs j.tx_index ≡ some (some j.tx_hash)))
        × ((k1 k2 : ℕ) (j1 j2 : TraceJob)
            → get_elem? (select_jobs max_txs txs) k1 ≡ some j1
            → get_elem? (select_jobs max_txs txs) k2 ≡ some j2
            → k1 < k2
            → j1.tx_index < j2.tx_index)
        × ((i : ℕ) (h : Text)
            → get_elem? txs i ≡ some (some h)
            → IsAmong max_txs i
            → (k : ℕ) × (get_elem? (select_jobs max_txs txs) k ≡ some (job k i h)))
  unfolding select_jobs
  select_jobs_iff txs = (
    λ k j at.
        let (e, free, m, same, le, here) = select_from_sound 0 0 k txs at in
        let em : m ≡ j.tx_index = omega (arith, same) in
        (
          omega (arith, e),
          omega (arith, le, em),
          is_limited-IsAmong max_txs j.tx_index free,
          subst (λ a. get_elem? txs a ≡ some (some j.tx_hash)) em here,
        ),
    λ k1 k2 j1 j2 h1 h2 lt. select_from_ordered 0 0 k1 k2 txs h1 h2 lt,
    λ i h at free.
        let ei : i ≡ 0 + i = omega arith in
        let (k, there) =
          select_from_complete 0 0 i txs at (rw (sym ei) (IsAmong-is_limited max_txs i free)) in
        (k, there ∙ ap₂ (λ a b. some (job a b h)) (omega arith) (omega arith)),
  )
