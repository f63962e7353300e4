-- ===== src/BlockProver/Schedule.antt =====
-- The goroutines of `processBlockAsUnit` (cmd/block-prove/main.go) under every schedule: how many
-- trace at a time, and how many steps they have before them.
use erigon_risc_v_executable.Prelude.{
  ℕ, suc, ◌+◌, subst, some-injective, none-some, ◌*◌, ◌≤◌, ◌≡◌, refl, sym, ◌∙◌, inl, inr, List, [],
  ◌∷◌, Option, some, Option-cases, Text, Bool-cases, ltb, ltb→lt, length, get_elem?, update, total,
  total-update, total-update_same, total-ge, get_elem?-update_same, get_elem?-update_other, ◌==◌,
  arith,
}
use erigon_risc_v_executable.Tracer.{StateTracer}
use erigon_risc_v_executable.BlockProver.{
  TraceJob, ApiRun, Stage, waiting, acquired, registered, running, called, stored, finished,
  Goroutine, Tracing, max_concurrent, spawn, start_tracing, receive, advance_at, advance, move_to,
  return_api,
}

-- 1 between the acquisition of a slot of the semaphore and its release
abbrev pub holds : Stage → ℕ
holds waiting = 0
holds finished = 0
holds _ = 1

-- the steps that a goroutine has before it
abbrev pub steps_left : Stage → ℕ
steps_left waiting = 6
steps_left acquired = 5
steps_left registered = 4
steps_left (running _) = 3
steps_left called = 2
steps_left stored = 1
steps_left finished = 0

abbrev pub tracing_now : Tracing → ℕ
tracing_now s = total (λ g. holds g.stage) s.goroutines

abbrev pub remaining : Tracing → ℕ
remaining s = total (λ g. steps_left g.stage) s.goroutines

-- `wg.Wait()` returns.
abbrev pub IsOver : Tracing → Type 0
IsOver s = remaining s ≡ 0

module _ (api : List ℕ → Text → ApiRun) where
  -- `n` steps of goroutines, each the scheduler's choice.
  pub data Run (first : Tracing) : ℕ → Tracing → Type 0 where
    here : Run first 0 first
    next :
        {n : ℕ} {s s' : Tracing}
        → Run first n s
        → (i : ℕ) → advance api i s ≡ some s'
        → Run first (suc n) s'

  total-receive :
      (w : Stage → ℕ) (i : ℕ) (run : ApiRun) (gs : List Goroutine)
      → total (λ g. w g.stage) (update i (receive run.tracer) gs) ≡ total (λ g. w g.stage) gs
  unfolding receive
  total-receive w i run gs =
      total-update_same (λ g. w g.stage) gs i (receive run.tracer)
        λ g. elim (Option-cases run.tracer) [ inl e ↦ rw e refl | inr (t, e) ↦ rw e refl ]

  stage-receive :
      (t : Option StateTracer) (gs : List Goroutine) (k i : ℕ) {g : Goroutine}
      → get_elem? gs i ≡ some g
      → (g' : Goroutine) × (get_elem? (update k (receive t) gs) i ≡ some g') × (g'.stage ≡ g.stage)
  unfolding receive
  stage-receive t gs k i {g} h = elim (Bool-cases (k == i)) [
    | inl e ↦
        let same : k ≡ i = ground arith in
        (
          receive t g,
          rw same (get_elem?-update_same gs i (receive t) h),
          elim (Option-cases t) [ inl e ↦ rw e refl | inr (_, e) ↦ rw e refl ],
        )
    | inr e ↦ (g, get_elem?-update_other gs k i (receive t) (λ x. ground arith) ∙ h, refl)
  ]

  moves :
      (w : Stage → ℕ) (gs : List Goroutine) (i : ℕ) (f : Goroutine → Goroutine) {g : Goroutine}
      {a b : Stage}
      → get_elem? gs i ≡ some g
      → g.stage ≡ a
      → ((x : Goroutine) → (f x).stage ≡ b)
      → total (λ x. w x.stage) (update i f gs) + w a ≡ total (λ x. w x.stage) gs + w b
  moves w gs i f {g} h from to = rw (sym from, sym (to g)) (total-update (λ x. w x.stage) gs i f h)

  -- What a step does: it is one of the steps left, and it keeps the semaphore in step with the
  -- goroutines that hold a slot.
  abbrev pub Keeps : Tracing → Tracing → Type 0
  Keeps s s' =
      (suc (remaining s') ≡ remaining s)
      × (s.semaphore ≡ tracing_now s
          → s.semaphore ≤ max_concurrent
          → (s'.semaphore ≡ tracing_now s') × (s'.semaphore ≤ max_concurrent))

  -- a step of goroutine `i` from stage `a` to `b`
  Keeps-move :
      (s : Tracing) {t s' : Tracing} (gs : List Goroutine) (i : ℕ) (f : Goroutine → Goroutine)
      (a b : Stage) {g : Goroutine}
      → some t ≡ some s'
      → ((w : Stage → ℕ) → total (λ x. w x.stage) gs ≡ total (λ x. w x.stage) s.goroutines)
      → get_elem? gs i ≡ some g
      → g.stage ≡ a
      → ((x : Goroutine) → (f x).stage ≡ b)
      → t.goroutines ≡ update i f gs
      → suc (steps_left b) ≡ steps_left a
      → (s.semaphore ≤ max_concurrent
          → holds a ≤ s.semaphore
          → (t.semaphore + holds a ≡ s.semaphore + holds b) × (t.semaphore ≤ max_concurrent))
      → Keeps s s'
  Keeps-move s {t} gs i f a b h same at from to after left slots =
      let steps : remaining t + steps_left a ≡ remaining s + steps_left b =
        rw (after, sym (same steps_left)) (moves steps_left gs i f at from to) in
      let held : tracing_now t + holds a ≡ tracing_now s + holds b =
        rw (after, sym (same holds)) (moves holds gs i f at from to) in
      let weighed : total (λ x. holds x.stage) gs ≡ tracing_now s = same holds in
      let holding : holds a ≤ total (λ x. holds x.stage) gs =
        rw (sym from) (total-ge (λ x. holds x.stage) gs i at) in
      subst (Keeps s) (some-injective h) (
        omega (arith, steps, left),
        λ e le.
            let one : holds a ≤ s.semaphore = omega (arith, e, weighed, holding) in
            let sem = (slots le one).0 in
            let below = (slots le one).1 in (omega (arith, sem, held, e), below),
      )

  advance_at-Keeps :
      (i : ℕ) (g : Goroutine) (stage : Stage) (s s' : Tracing)
      → get_elem? s.goroutines i ≡ some g
      → g.stage ≡ stage
      → advance_at api i g stage s ≡ some s'
      → Keeps s s'
  unfolding advance_at
  advance_at-Keeps i g waiting s s' at now h = elim (Bool-cases (ltb s.semaphore max_concurrent)) [
    | inl free ↦
        (Keeps-move s s.goroutines i (move_to acquired) waiting acquired (rw free at h) (λ w. refl)
          at now (λ x. refl) refl refl
          (λ le one. (omega arith, omega (arith, ltb→lt s.semaphore max_concurrent free))))
    | inr full ↦ absurd (none-some (rw full at h))
  ]
  advance_at-Keeps i g acquired s s' at now h =
      (Keeps-move s s.goroutines i (move_to registered) acquired registered h (λ w. refl) at now
        (λ x. refl) refl refl (λ le one. (refl, le)))
  advance_at-Keeps i g registered s s' at now h =
      let run = api s.registrations g.job.tx_hash in
      (Keeps-move s s.goroutines i (move_to (running run)) registered (running run) h (λ w. refl) at
        now (λ x. refl) refl refl (λ le one. (refl, le)))
  advance_at-Keeps i g (running run) s s' at now h =
      let (g', at', same) = stage-receive run.tracer s.goroutines run.receiver i at in
      (Keeps-move s (update run.receiver (receive run.tracer) s.goroutines) i (return_api run.error)
        (running run) called h (λ w. total-receive w run.receiver run s.goroutines) at' (same ∙ now)
        (λ x. refl) refl refl (λ le one. (refl, le)))
  advance_at-Keeps i g called s s' at now h =
      (Keeps-move s s.goroutines i (move_to stored) called stored h (λ w. refl) at now (λ x. refl)
        refl refl (λ le one. (refl, le)))
  advance_at-Keeps i g stored s s' at now h =
      (Keeps-move s s.goroutines i (move_to finished) stored finished h (λ w. refl) at now
        (λ x. refl) refl refl (λ le one. (omega (arith, one), omega (arith, le))))
  advance_at-Keeps i g finished s s' at now h = absurd (none-some h)

  pub advance-Keeps : (i : ℕ) (s s' : Tracing) → advance api i s ≡ some s' → Keeps s s'
  unfolding advance
  advance-Keeps i s s' h = elim (Option-cases (get_elem? s.goroutines i)) [
    | inl e ↦ absurd (none-some (rw (e, advance) at h))
    | inr (g, e) ↦ advance_at-Keeps i g g.stage s s' e refl (rw (e, advance) at h)
  ]

  -- the semaphore counts the goroutines that hold a slot
  abbrev pub IsCounted : Tracing → Type 0
  IsCounted s = (s.semaphore ≡ tracing_now s) × (s.semaphore ≤ max_concurrent)

  pub Run-Keeps :
      {first s : Tracing} {n : ℕ}
      → IsCounted first
      → Run first n s
      → IsCounted s × (n + remaining s ≡ remaining first)
  Run-Keeps c here = (c, omega arith)
  Run-Keeps c (next {s} {s'} run i h) =
      let ((e, le), steps) = Run-Keeps c run in
      let (one, kept) = advance-Keeps i s s' h in (kept e le, omega (arith, one, steps))

  start_weights :
      (jobs : List TraceJob)
      → (tracing_now (start_tracing jobs) ≡ 0) × (remaining (start_tracing jobs) ≡ 6 * length jobs)
  unfolding start_tracing spawn
  start_weights [] = (refl, refl)
  start_weights (j ∷ jobs) =
      let (e1, e2) = start_weights jobs in (omega (arith, e1), omega (arith, e2))

  pub start_tracing-IsCounted : (jobs : List TraceJob) → IsCounted (start_tracing jobs)
  unfolding start_tracing
  start_tracing-IsCounted jobs = (sym (start_weights jobs).0, omega arith)

  module _ (jobs : List TraceJob) {n : ℕ} {s : Tracing} (run : Run (start_tracing jobs) n s) where
    -- At every moment of every schedule at most five goroutines are between the acquisition of
    -- their slot and its release, and the semaphore counts them.
    pub tracing_now-le : (tracing_now s ≤ 5) × (s.semaphore ≡ tracing_now s)
    tracing_now-le =
        let ((e, le), _) = Run-Keeps (start_tracing-IsCounted jobs) run in (omega (arith, e, le), e)
