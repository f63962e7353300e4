-- ===== src/Debugger/Search.antt =====
-- What the binary search of cmd/debug-transpiler/main.go finds.
use erigon_risc_v_executable.Prelude.{
  ℕ, zero, suc, ◌+◌, ◌-◌, ◌/◌, ◌≤◌, ◌<◌, ◌≡◌, refl, sym, ◌∙◌, ◌⊎◌, inl, inr, Bool, true, false,
  Bool-cases, ltb, ltb→lt, ltb→le, ap, subst, arith,
}
use erigon_risc_v_executable.Debugger.{search, last_working_count}

-- A border between what works and what fails, among the numbers below `n`.
pub record Border (test : ℕ → Bool) (n k : ℕ) : Type 0 where
  pub in_range : k ≤ n
  pub below : (k ≡ 0) ⊎ (test (k - 1) ≡ true)
  pub above : (k ≡ n) ⊎ (test k ≡ false)

clash : {b : Bool} → b ≡ true → b ≡ false → ⊥
clash h k = ground arith

module _ (test : ℕ → Bool) (n : ℕ) where
  border :
      (left right : ℕ)
      → (left ≡ 0) ⊎ (test (left - 1) ≡ true)
      → (right ≡ n) ⊎ (test right ≡ false)
      → left ≡ right
      → right ≤ n
      → Border test n left
  border left right lo hi same fits = record {
    in_range = omega arith;
    below = lo;
    above = subst (λ k. (k ≡ n) ⊎ (test k ≡ false)) (sym same) hi;
  }

  -- The fuel is enough when it is the number of candidates.
  search-Border :
      (fuel left right : ℕ)
      → right ≤ left + fuel
      → left ≤ right
      → right ≤ n
      → (left ≡ 0) ⊎ (test (left - 1) ≡ true)
      → (right ≡ n) ⊎ (test right ≡ false)
      → Border test n (search test fuel left right left)
  unfolding search
  search-Border zero left right enough ordered fits lo hi =
      border left right lo hi (omega arith) fits
  search-Border (suc fuel) left right enough ordered fits lo hi =
      elim (Bool-cases (ltb left right)) [
        | inl less ↦
            let strict = ltb→lt left right less in
            let mid = (left + (right - 1)) / 2 in
            elim (Bool-cases (test mid)) [
              | inl e ↦
                  rw (less, e)
                    (search-Border fuel (mid + 1) right (omega arith) (omega arith) fits
                      (inr (ap test (omega arith) ∙ e)) hi)
              | inr e ↦
                  rw (less, e)
                    (search-Border fuel left mid (omega arith) (omega arith) (omega arith) lo
                      (inr e))
            ]
        | inr closed ↦
            rw closed (border left right lo hi (omega (arith, ltb→le left right closed)) fits)
      ]

  -- The search ends at a border, whatever the test is: the last index that it reports works, if
  -- there is one, and the next one fails, unless it is the number of opcodes; the number of opcodes
  -- is fuel enough.
  pub last_working_count-Border : Border test n (last_working_count test n)
  unfolding last_working_count
  last_working_count-Border =
      search-Border n 0 n (omega arith) (omega arith) (omega arith) (inl refl) (inl refl)

  -- Where a longer run of opcodes never works after a shorter one has failed, the indices below
  -- what the search returns are those that work.
  pub last_working_count_iff :
      ((i j : ℕ) → i ≤ j → test j ≡ true → test i ≡ true)
      → (i : ℕ) → i < n
      → test i ≡ ltb i (last_working_count test n)
  last_working_count_iff mono i h =
      let k = last_working_count test n in
      let b = last_working_count-Border in
      elim (Bool-cases (ltb i k)) [
        | inl less ↦ elim b.below [
          | inl none_works ↦ absurd (omega (arith, ltb→lt i k less))
          | inr works ↦ mono i (k - 1) (omega (arith, ltb→lt i k less)) works ∙ sym less
        ]
        | inr more ↦ elim b.above [
          | inl all_work ↦ absurd (omega (arith, ltb→le i k more))
          | inr fails ↦ elim (Bool-cases (test i)) [
            | inl proved ↦ absurd (clash (mono k i (ltb→le i k more) proved) fails)
            | inr failed ↦ failed ∙ sym more
          ]
        ]
      ]
