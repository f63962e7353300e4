-- ===== src/BlockProver/Progress.antt =====
-- That the goroutines of `processBlockAsUnit` (cmd/block-prove/main.go) are never stuck.
use erigon_risc_v_executable.Prelude.{
  ℕ, zero, suc, ◌<◌, ◌≡◌, refl, ◌⊎◌, inl, inr, List, [], ◌∷◌, some, Text, lt→ltb, get_elem?, total,
  arith,
}
use erigon_risc_v_executable.BlockProver.{
  TraceJob, ApiRun, Stage, waiting, acquired, registered, running, called, stored, finished,
  Goroutine, Tracing, max_concurrent, start_tracing, advance_at, advance,
}
use erigon_risc_v_executable.BlockProver.Schedule.{
  holds, steps_left, remaining, IsOver, Run, here, next, advance-Keeps, IsCounted, Run-Keeps,
  start_tracing-IsCounted,
}

held_or_not : (a : Stage) → (holds a ≡ 1) ⊎ (holds a ≡ 0)
held_or_not waiting = inr refl
held_or_not acquired = inl refl
held_or_not registered = inl refl
held_or_not (running _) = inl refl
held_or_not called = inl refl
held_or_not stored = inl refl
held_or_not finished = inr refl

zero_or_more : (n : ℕ) → (n ≡ 0) ⊎ (0 < n)
zero_or_more zero = inl refl
zero_or_more (suc n) = inr (omega arith)

module _ (api : List ℕ → Text → ApiRun) where
  -- Either no goroutine holds a slot, or one does and so it can go on.
  holder :
      (gs : List Goroutine)
      → (total (λ g. holds g.stage) gs ≡ 0)
        ⊎ ((i : ℕ) × (g : Goroutine) × (get_elem? gs i ≡ some g) × (holds g.stage ≡ 1))
  holder [] = inl refl
  holder (g ∷ gs) = elim (holder gs) [
    | inr (i, h, at, held) ↦ inr (suc i, h, at, held)
    | inl none_holds ↦ elim (held_or_not g.stage) [
      | inl one ↦ inr (0, g, refl, one)
      | inr nothing ↦ inl (omega (arith, nothing, none_holds))
    ]
  ]

  advance_at-holding :
      (i : ℕ) (g : Goroutine) (stage : Stage) (s : Tracing)
      → holds stage ≡ 1
      → (s' : Tracing) × (advance_at api i g stage s ≡ some s')
  unfolding advance_at
  advance_at-holding i g waiting s h = ground arith
  advance_at-holding i g acquired s h = (_, refl)
  advance_at-holding i g registered s h = (_, refl)
  advance_at-holding i g (running run) s h = (_, refl)
  advance_at-holding i g called s h = (_, refl)
  advance_at-holding i g stored s h = (_, refl)
  advance_at-holding i g finished s h = ground arith

  -- a goroutine that has not ended
  unfinished :
      (gs : List Goroutine)
      → (total (λ g. steps_left g.stage) gs ≡ 0)
        ⊎ ((i : ℕ) × (g : Goroutine) × (get_elem? gs i ≡ some g) × (0 < steps_left g.stage))
  unfinished [] = inl refl
  unfinished (g ∷ gs) = elim (unfinished gs) [
    | inr (i, h, at, more) ↦ inr (suc i, h, at, more)
    | inl all_done ↦ elim (zero_or_more (steps_left g.stage)) [
      | inl e ↦ inl (omega (arith, e, all_done))
      | inr more ↦ inr (0, g, refl, more)
    ]
  ]

  advance_at-free :
      (i : ℕ) (g : Goroutine) (stage : Stage) (s : Tracing)
      → 0 < steps_left stage
      → s.semaphore < max_concurrent
      → (s' : Tracing) × (advance_at api i g stage s ≡ some s')
  unfolding advance_at
  advance_at-free i g waiting s h free = rw (lt→ltb s.semaphore max_concurrent free) (_, refl)
  advance_at-free i g acquired s h free = (_, refl)
  advance_at-free i g registered s h free = (_, refl)
  advance_at-free i g (running run) s h free = (_, refl)
  advance_at-free i g called s h free = (_, refl)
  advance_at-free i g stored s h free = (_, refl)
  advance_at-free i g finished s h free = absurd (omega arith)

  IsCounted-progress :
      (s : Tracing)
      → IsCounted api s
      → IsOver s ⊎ ((i : ℕ) × (s' : Tracing) × (advance api i s ≡ some s'))
  unfolding advance
  IsCounted-progress s (e, le) = elim (unfinished s.goroutines) [
    | inl over ↦ inl over
    | inr (i, g, at, more) ↦ elim (holder s.goroutines) [
      | inr (k, g', at', held) ↦
          let (s', go) = advance_at-holding k g' g'.stage s held in
          inr (k, s', rw (at', advance) go)
      | inl free ↦
          let (s', go) = advance_at-free i g g.stage s more (omega (arith, e, free)) in
          inr (i, s', rw (at, advance) go)
    ]
  ]

  Run-first :
      {s s1 s' : Tracing} {k : ℕ} (i : ℕ)
      → advance api i s ≡ some s1
      → Run api s1 k s'
      → Run api s (suc k) s'
  Run-first i h here = next here i h
  Run-first i h (next more j h') = next (Run-first i h more) j h'

  complete :
      (k : ℕ) (s : Tracing)
      → IsCounted api s
      → remaining s ≡ k
      → (s' : Tracing) × Run api s k s' × IsOver s'
  complete zero s c e = (s, here, e)
  complete (suc k) s c e = elim (IsCounted-progress s c) [
    | inl over ↦ absurd (omega (arith, over, e))
    | inr (i, s1, h) ↦
        let (one, kept) = advance-Keeps api i s s1 h in
        let (s', more, over) = complete k s1 (kept c.0 c.1) (omega (arith, one, e)) in
        (s', Run-first i h more, over)
  ]

  module _ (jobs : List TraceJob) {n : ℕ} {s : Tracing}
      (run : Run api (start_tracing jobs) n s) where
    -- No schedule is stuck: when not every goroutine has ended, one of them can take a step, and
    -- from every moment a schedule goes on to the end of all.
    pub progress :
        (IsOver s ⊎ ((i : ℕ) × (s' : Tracing) × (advance api i s ≡ some s')))
        × ((s' : Tracing) × Run api s (remaining s) s' × IsOver s')
    progress =
        let (c, _) = Run-Keeps api (start_tracing-IsCounted api jobs) run in
        (IsCounted-progress s c, complete (remaining s) s c refl)
