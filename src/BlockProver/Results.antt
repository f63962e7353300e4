-- ===== src/BlockProver/Results.antt =====
-- What the goroutines of `processBlockAsUnit` (cmd/block-prove/main.go) leave in `results`, when no
-- registration comes between a goroutine's own and its call of the API.
use erigon_risc_v_executable.Prelude.{
  ℕ, ◌≡◌, ◌≢◌, refl, sym, ap, ap₂, ◌∙◌, subst, List, [], ◌∷◌, Option, none, some, Option-cases,
  Bool-cases, ltb, inl, inr, Text, length, get_elem?, map, update, get_elem?-lt,
  get_elem?-update_same, get_elem?-update_other, length-update, total, total-ge, length-map,
  length-replicate, set-update, update-update, get_elem?-some, get_elem?-ext, get_elem?-map,
  none-some, some-injective, arith, ◌==◌,
}
use erigon_risc_v_executable.Tracer.{StateTracer}
use erigon_risc_v_executable.BlockProver.{
  TraceJob, TraceResult, ApiRun, Stage, waiting, acquired, registered, running, called, stored,
  finished, Goroutine, Tracing, spawn, start_tracing, receive, advance_at, advance, move_to,
  return_api, trace_result, max_concurrent,
}
use erigon_risc_v_executable.BlockProver.Schedule.{Run, here, next, IsOver, steps_left}

no_steps : (a : Stage) → steps_left a ≡ 0 → a ≡ finished
no_steps waiting h = absurd (omega (arith, h))
no_steps acquired h = absurd (omega (arith, h))
no_steps registered h = absurd (omega (arith, h))
no_steps (running r) h = absurd (omega (arith, h))
no_steps called h = absurd (omega (arith, h))
no_steps stored h = absurd (omega (arith, h))
no_steps finished h = refl

module _ (api : List ℕ → Text → ApiRun) where
  -- The registry gives the newest registration, and the older ones do not matter.
  pub record IsNewest : Type 0 where
    pub to_newest : (k : ℕ) (others : List ℕ) (h : Text) → (api (k ∷ others) h).receiver ≡ k
    pub same_tracer :
        (k : ℕ) (others : List ℕ) (h : Text) → (api (k ∷ others) h).tracer ≡ (api (k ∷ []) h).tracer
    pub same_error :
        (k : ℕ) (others : List ℕ) (h : Text) → (api (k ∷ others) h).error ≡ (api (k ∷ []) h).error

  -- what the API does for a job when it is the only one
  abbrev pub own_run : TraceJob → ApiRun
  own_run j = api (j.index ∷ []) j.tx_hash

  -- the result of a job traced alone
  abbrev pub alone : TraceJob → TraceResult
  alone j = trace_result j (own_run j).tracer (own_run j).error

  -- At a goroutine's call of the API the newest registration is its own.
  abbrev pub IsOwnCall : Tracing → Goroutine → Stage → Type 0
  IsOwnCall s g registered = (others : List ℕ) × (s.registrations ≡ g.job.index ∷ others)
  IsOwnCall s g _ = Unit

  abbrev pub IsOwnStep : Tracing → ℕ → Type 0
  IsOwnStep s i = elim (get_elem? s.goroutines i) [ none ↦ Unit | some g ↦ IsOwnCall s g g.stage ]

  -- No registration comes between a goroutine's own and its call of the API.
  abbrev pub IsUncontended : {first : Tracing} {n : ℕ} {s : Tracing} → Run api first n s → Type 0
  IsUncontended here = Unit
  IsUncontended (next {s} run i h) = IsUncontended run × IsOwnStep s i

  -- What goroutine `k`, of job `j`, has written when it is at a stage.
  IsAt : List TraceResult → ℕ → Goroutine → Stage → Type 0
  IsAt rs k g waiting = g.tracer_result ≡ none
  IsAt rs k g acquired = g.tracer_result ≡ none
  IsAt rs k g registered = g.tracer_result ≡ none
  IsAt rs k g (running r) =
      (g.tracer_result ≡ none)
      × (r.receiver ≡ k)
      × (r.tracer ≡ (own_run g.job).tracer)
      × (r.error ≡ (own_run g.job).error)
  IsAt rs k g called =
      (g.tracer_result ≡ (own_run g.job).tracer) × (g.api_error ≡ (own_run g.job).error)
  IsAt rs k g stored = get_elem? rs k ≡ some (alone g.job)
  IsAt rs k g finished = get_elem? rs k ≡ some (alone g.job)

  record IsTraced (jobs : List TraceJob) (s : Tracing) : Type 0 where
    as_many : length s.goroutines ≡ length jobs
    room : length s.results ≡ length jobs
    each :
        (k : ℕ) (g : Goroutine)
        → get_elem? s.goroutines k ≡ some g
        → (get_elem? jobs k ≡ some g.job) × IsAt s.results k g g.stage

  IsAt-same :
      (rs rs' : List TraceResult) (k : ℕ) (g : Goroutine) (stage : Stage)
      → get_elem? rs' k ≡ get_elem? rs k
      → IsAt rs k g stage
      → IsAt rs' k g stage
  unfolding IsAt
  IsAt-same rs rs' k g waiting e h = h
  IsAt-same rs rs' k g acquired e h = h
  IsAt-same rs rs' k g registered e h = h
  IsAt-same rs rs' k g (running r) e h = h
  IsAt-same rs rs' k g called e h = h
  IsAt-same rs rs' k g stored e h = e ∙ h
  IsAt-same rs rs' k g finished e h = e ∙ h

  module _ (jobs : List TraceJob) (s : Tracing) (traced : IsTraced jobs s) (i : ℕ) {g : Goroutine}
      (at : get_elem? s.goroutines i ≡ some g) where
    -- A step of goroutine `i`: the others, and their results, stay.
    goroutine_moves :
        (f : Goroutine → Goroutine) {t s' : Tracing}
        → some t ≡ some s'
        → t.goroutines ≡ update i f s.goroutines
        → length t.results ≡ length s.results
        → ((k : ℕ) → i ≢ k → get_elem? t.results k ≡ get_elem? s.results k)
        → (f g).job ≡ g.job
        → IsAt t.results i (f g) (f g).stage
        → IsTraced jobs s'
    goroutine_moves f {t} h moved long others same now =
        subst (IsTraced jobs) (some-injective h) (record {
          as_many = ap length moved ∙ length-update s.goroutines i f ∙ traced.as_many;
          room = long ∙ traced.room;
          each = λ k g' at'.
              let there : get_elem? (update i f s.goroutines) k ≡ some g' = rw moved at at' in
              elim (Bool-cases (i == k)) [
                | inl e ↦
                    let same_index : i ≡ k = ground arith in
                    let here' : f g ≡ g' = some-injective (
                      sym (get_elem?-update_same s.goroutines i f at)
                      ∙ (ap (get_elem? (update i f s.goroutines)) same_index ∙ there)) in
                    subst (λ x. (get_elem? jobs k ≡ some x.job) × IsAt t.results k x x.stage) here'
                      (
                        subst (λ k. get_elem? jobs k ≡ some (f g).job) same_index
                            ((traced.each i g at).0 ∙ ap some (sym same)),
                        subst (λ k. IsAt t.results k (f g) (f g).stage) same_index now,
                      )
                | inr e ↦
                    let apart : i ≢ k = λ x. ground arith in
                    let (job, was) =
                      traced.each k g'
                        (sym (get_elem?-update_other s.goroutines i k f apart) ∙ there) in
                    (job, IsAt-same s.results t.results k g' g'.stage (others k apart) was)
              ];
        })

  IsAt-trace_result :
      (g : Goroutine)
      → g.tracer_result ≡ (own_run g.job).tracer
      → g.api_error ≡ (own_run g.job).error
      → trace_result g.job g.tracer_result g.api_error ≡ alone g.job
  IsAt-trace_result g et ee = ap₂ (trace_result g.job) et ee

  receive-fresh :
      (t : Option StateTracer) (g : Goroutine)
      → g.tracer_result ≡ none
      → ((receive t g).tracer_result ≡ t) × ((receive t g).job ≡ g.job)
  unfolding receive
  receive-fresh none g h = (h, refl)
  receive-fresh (some t) g h = (refl, refl)

  over_finished :
      (gs : List Goroutine)
      → total (λ g. steps_left g.stage) gs ≡ 0
      → (k : ℕ) {g : Goroutine} → get_elem? gs k ≡ some g
      → g.stage ≡ finished
  over_finished gs over k {g} at =
      no_steps g.stage (omega (arith, over, total-ge (λ g. steps_left g.stage) gs k at))

  module _ (jobs : List TraceJob) (newest : IsNewest)
      (indexed : (k : ℕ) (j : TraceJob) → get_elem? jobs k ≡ some j → j.index ≡ k) where
    advance_at-IsTraced :
        (i : ℕ) (g : Goroutine) (stage : Stage) (s s' : Tracing)
        → IsTraced jobs s
        → get_elem? s.goroutines i ≡ some g
        → g.stage ≡ stage
        → IsOwnCall s g stage
        → advance_at api i g stage s ≡ some s'
        → IsTraced jobs s'
    unfolding advance_at IsAt
    advance_at-IsTraced i g waiting s s' traced at now own h =
        elim (Bool-cases (ltb s.semaphore max_concurrent)) [
          | inl free ↦
              goroutine_moves jobs s traced i at (move_to acquired) (rw free at h) refl refl
                (λ k ne. refl) refl (rw now at (traced.each i g at).1)
          | inr full ↦ absurd (none-some (rw full at h))
        ]
    advance_at-IsTraced i g acquired s s' traced at now own h =
        goroutine_moves jobs s traced i at (move_to registered) h refl refl (λ k ne. refl) refl
          (rw now at (traced.each i g at).1)
    advance_at-IsTraced i g registered s s' traced at now own h =
        let (others, mine) = own in
        let (job, was) = traced.each i g at in
        let run = api s.registrations g.job.tx_hash in
        let index : g.job.index ≡ i = indexed i g.job job in
        goroutine_moves jobs s traced i at (move_to (running run)) h refl refl (λ k ne. refl) refl
          (
            rw now at was,
            rw mine (newest.to_newest g.job.index others g.job.tx_hash) ∙ index,
            rw mine (newest.same_tracer g.job.index others g.job.tx_hash),
            rw mine (newest.same_error g.job.index others g.job.tx_hash),
          )
    advance_at-IsTraced i g (running run) s s' traced at now own h =
        let (job, was) = traced.each i g at in
        let (fresh, mine, tracer, error) : IsAt s.results i g (running run) = rw now at was in
        let (received, same) = receive-fresh run.tracer g fresh in
        goroutine_moves jobs s traced i at (λ x. return_api run.error (receive run.tracer x)) h
          (rw mine (update-update s.goroutines i (return_api run.error) (receive run.tracer))) refl
          (λ k ne. refl) same
          (
            received ∙ tracer ∙ ap (λ j. (own_run j).tracer) (sym same),
            error ∙ ap (λ j. (own_run j).error) (sym same),
          )
    advance_at-IsTraced i g called s s' traced at now own h =
        let (job, was) = traced.each i g at in
        let now_called : IsAt s.results i g called = rw now at was in
        let result = trace_result g.job g.tracer_result g.api_error in
        let written = set-update s.results g.job.index result in
        let index : g.job.index ≡ i = indexed i g.job job in
        let (old, there) =
          get_elem?-some s.results i
            (omega (arith, traced.room, traced.as_many, get_elem?-lt s.goroutines i at)) in
        goroutine_moves jobs s traced i at (move_to stored) h refl
          (ap length written ∙ length-update s.results g.job.index _)
          (λ k ne.
            ap (λ rs. get_elem? rs k) written
            ∙ get_elem?-update_other s.results g.job.index k _ (λ e. ne (sym index ∙ e)))
          refl
          (ap (λ rs. get_elem? rs i) written
            ∙ ap (λ n. get_elem? (update n (λ _. result) s.results) i) index
            ∙ get_elem?-update_same s.results i (λ _. result) there
            ∙ ap some (IsAt-trace_result g now_called.0 now_called.1))
    advance_at-IsTraced i g stored s s' traced at now own h =
        goroutine_moves jobs s traced i at (move_to finished) h refl refl (λ k ne. refl) refl
          (rw now at (traced.each i g at).1)
    advance_at-IsTraced i g finished s s' traced at now own h = absurd (none-some h)

    advance-IsTraced :
        (i : ℕ) (s s' : Tracing)
        → IsTraced jobs s
        → IsOwnStep s i
        → advance api i s ≡ some s'
        → IsTraced jobs s'
    unfolding advance
    advance-IsTraced i s s' traced own h = elim (Option-cases (get_elem? s.goroutines i)) [
      | inl e ↦ absurd (none-some (rw (e, advance) at h))
      | inr (g, e) ↦
          advance_at-IsTraced i g g.stage s s' traced e refl (rw (e, IsOwnStep) at own)
            (rw (e, advance) at h)
    ]

    start_tracing-IsTraced : IsTraced jobs (start_tracing jobs)
    unfolding start_tracing spawn IsAt
    start_tracing-IsTraced = record {
      as_many = length-map jobs spawn;
      room = length-replicate (length jobs) _;
      each = λ k g at.
          let (j, there, e) = get_elem?-map spawn jobs k at in
          subst
            (λ x. (get_elem? jobs k ≡ some x.job) × IsAt (start_tracing jobs).results k x x.stage) e
            (there, refl);
    }

    Run-IsTraced :
        {n : ℕ} {s : Tracing} (run : Run api (start_tracing jobs) n s)
        → IsUncontended run
        → IsTraced jobs s
    Run-IsTraced here free = start_tracing-IsTraced
    Run-IsTraced (next {s} {s'} run i h) free =
        advance-IsTraced i s s' (Run-IsTraced run free.0) free.1 h

    -- When all goroutines have ended, the results hold, for every job at its place, what the job
    -- gives when it is traced alone, however the steps of the goroutines were interleaved, as long
    -- as no registration came between a goroutine's own and the lookup of its call of the API; the
    -- registry gives the newest registration and the older ones do not matter, and job number k has
    -- the index k.
    pub results-map :
        {n : ℕ} {s : Tracing}
        → (run : Run api (start_tracing jobs) n s) → IsUncontended run
        → IsOver s
        → s.results ≡ map alone jobs
    unfolding IsAt
    results-map {s} run free over =
        let traced = Run-IsTraced run free in
        get_elem?-ext s.results (map alone jobs) (traced.room ∙ sym (length-map jobs alone))
          λ k r at.
            let (j, there, e) = get_elem?-map alone jobs k at in
            let (g, found) =
              get_elem?-some s.goroutines k
                (omega (arith, traced.as_many, get_elem?-lt jobs k there)) in
            let (job, was) = traced.each k g found in
            let done : g.stage ≡ finished = over_finished s.goroutines over k found in
            let same : g.job ≡ j = some-injective (sym job ∙ there) in
            let last : get_elem? s.results k ≡ some (alone g.job) = rw done at was in
            last ∙ ap some (ap alone same ∙ e)
