-- ===== src/Runner/Snapshots.antt =====
-- What a run under the hook of `Execute` (prover/unicorn_runner.go) collects.
use erigon_risc_v_executable.Prelude.{
  ℕ, zero, suc, ◌+◌, ◌≡◌, refl, sym, ap, ◌∙◌, subst, ◌⊎◌, inl, inr, List, [], ◌∷◌, ◌++◌,
  append_assoc, append-nil, Option, none, some, Option-cases, true, false, Bool-cases, Text, length,
  get_elem?, none-some, arith,
}
use erigon_risc_v_executable.Assembly.{Instruction}
use erigon_risc_v_executable.Compiler.{is_ebreak}
use erigon_risc_v_executable.Deps.{Deps}
use erigon_risc_v_executable.Machine.{Machine, step, exec}
use erigon_risc_v_executable.Machine.Balance.{exec-cons, exec-stuck}
use erigon_risc_v_executable.Prover.{Answer, given, refused, Answer-cases}
use erigon_risc_v_executable.Runner.{print_stack_state}
use erigon_risc_v_executable.Runner.Execute.{
  Unicorn, HookedRun, completed, stuck, hook_panic, stack_addr, mem_size, mapped, take_snapshot,
  code_hook, run_hooked,
}

-- the number of EBREAK instructions
abbrev pub count_ebreaks : List Instruction → ℕ
count_ebreaks [] = 0
count_ebreaks (i ∷ is) = elim (is_ebreak i.name) [
  | true ↦ suc (count_ebreaks is)
  | false ↦ count_ebreaks is
]

count-break :
    (i : Instruction) (is : List Instruction)
    → is_ebreak i.name ≡ true
    → count_ebreaks (i ∷ is) ≡ 1 + count_ebreaks is
count-break i is b =
    ap (λ x. elim x as (λ _. ℕ) [ true ↦ suc (count_ebreaks is) | false ↦ count_ebreaks is ]) b
    ∙ omega arith

count-other :
    (i : Instruction) (is : List Instruction)
    → is_ebreak i.name ≡ false
    → count_ebreaks (i ∷ is) ≡ 0 + count_ebreaks is
count-other i is b =
    ap (λ x. elim x as (λ _. ℕ) [ true ↦ suc (count_ebreaks is) | false ↦ count_ebreaks is ]) b
    ∙ omega arith

module _ (d : Deps) (u : Unicorn) where
  -- the stack as it is read from a machine
  abbrev pub reads : Machine → Option (List ℕ)
  reads m = print_stack_state d mapped stack_addr mem_size m

  -- `s` is what is read in front of an EBREAK of the code, before which there are `k` others.
  pub record SnapAt (code : List Instruction) (m : Machine) (k : ℕ) (s : List ℕ) : Type 0 where
    pub before : List Instruction
    pub at_ebreak : Instruction
    pub after : List Instruction
    pub parts : code ≡ before ++ at_ebreak ∷ after
    pub hit : is_ebreak at_ebreak.name ≡ true
    pub nth : count_ebreaks before ≡ k
    pub reached : Machine
    pub runs : exec u.linked before m ≡ some reached
    pub read : reads reached ≡ some s

  -- the hook's errors at an instruction
  abbrev pub HookFails : ℕ → Instruction → Machine → Text → Type 0
  HookFails n i m e =
      (u.fetch_error n ≡ some e) ⊎ ((is_ebreak i.name ≡ true) × (take_snapshot d u n m ≡ refused e))

  -- The ends of a run of `code` from number `n`: it completes, with a snapshot for each EBREAK; or an
  -- instruction cannot be executed; or the hook fails in front of one.
  pub data RunEnds (n : ℕ) (code : List Instruction) (m : Machine) (snapshots : List (List ℕ))
      : HookedRun → Type 0 where
    completes :
        {m' : Machine} (new : List (List ℕ))
        → exec u.linked code m ≡ some m'
        → length new ≡ count_ebreaks code
        → ((k : ℕ) (s : List ℕ) → get_elem? new k ≡ some s → SnapAt code m k s)
        → RunEnds n code m snapshots (completed (snapshots ++ new) m')
    sticks : exec u.linked code m ≡ none → RunEnds n code m snapshots stuck
    panics :
        {e : Text} (before after : List Instruction) (i : Instruction) {mk : Machine}
        → code ≡ before ++ i ∷ after
        → exec u.linked before m ≡ some mk
        → HookFails (n + length before) i mk e
        → RunEnds n code m snapshots (hook_panic e)

  -- what the hook does at an instruction
  abbrev HookCases : ℕ → Instruction → Machine → List (List ℕ) → Type 0
  HookCases n i m snapshots =
      ((is_ebreak i.name ≡ false) × (code_hook d u n i m snapshots ≡ given snapshots))
      ⊎ (((s : List ℕ) × (is_ebreak i.name ≡ true)
            × (reads m ≡ some s)
            × (code_hook d u n i m snapshots ≡ given (snapshots ++ s ∷ [])))
          ⊎ ((e : Text) × HookFails n i m e × (code_hook d u n i m snapshots ≡ refused e)))

  refused-given {ℓ} :
      {A : Type ℓ} {e : Text} {a : A} → (let x : Answer A = refused e in x ≡ given a) → ⊥
  refused-given h = ground arith

  given-injective {ℓ} : {A : Type ℓ} {a b : A} → given a ≡ given b → a ≡ b
  given-injective h = cc

  take_snapshot-given :
      (n : ℕ) (m : Machine) {s : List ℕ} → take_snapshot d u n m ≡ given s → reads m ≡ some s
  unfolding take_snapshot
  take_snapshot-given n m h = elim (Option-cases (reads m)) [
    | inl e ↦ absurd (refused-given (rw (e, take_snapshot) at h))
    | inr (s, e) ↦ elim (Option-cases (u.pc_error n)) [
      | inl p ↦ e ∙ ap some (given-injective (rw (e, p, take_snapshot) at h))
      | inr (x, p) ↦ absurd (refused-given (rw (e, p, take_snapshot) at h))
    ]
  ]

  hook_cases :
      (n : ℕ) (i : Instruction) (m : Machine) (snapshots : List (List ℕ))
      → HookCases n i m snapshots
  unfolding code_hook
  hook_cases n i m snapshots = elim (Option-cases (u.fetch_error n)) [
    | inr (e, f) ↦ inr (inr (e, inl f, rw (f, code_hook) refl))
    | inl f ↦ elim (Bool-cases (is_ebreak i.name)) [
      | inr b ↦ inl (b, rw (f, b, code_hook) refl)
      | inl b ↦ elim (Answer-cases (take_snapshot d u n m)) [
        | inl (s, t) ↦ inr (inl (s, b, take_snapshot-given n m t, rw (f, b, t, code_hook) refl))
        | inr (e, t) ↦ inr (inr (e, inr (b, t), rw (f, b, t, code_hook) refl))
      ]
    ]
  ]

  SnapAt-cons :
      (i : Instruction) (code : List Instruction) (m m1 : Machine) (j k : ℕ) (s : List ℕ)
      → step u.linked i m ≡ some m1
      → ((is : List Instruction) → count_ebreaks (i ∷ is) ≡ j + count_ebreaks is)
      → SnapAt code m1 k s
      → SnapAt (i ∷ code) m (j + k) s
  SnapAt-cons i code m m1 j k s h counts x = record {
    before = i ∷ x.before;
    at_ebreak = x.at_ebreak;
    after = x.after;
    parts = ap (λ is. i ∷ is) x.parts;
    hit = x.hit;
    nth = counts x.before ∙ ap (λ a. j + a) x.nth;
    reached = x.reached;
    runs = exec-cons u.linked i x.before m h ∙ x.runs;
    read = x.read;
  }

  ends-plain :
      (n : ℕ) (i : Instruction) (code : List Instruction) (m m1 : Machine)
      (snapshots : List (List ℕ)) (r : HookedRun)
      → step u.linked i m ≡ some m1
      → is_ebreak i.name ≡ false
      → RunEnds (n + 1) code m1 snapshots r
      → RunEnds n (i ∷ code) m snapshots r
  ends-plain n i code m m1 snapshots _ h b (completes new runs many at) =
      let counts : (is : List Instruction) → count_ebreaks (i ∷ is) ≡ 0 + count_ebreaks is =
        λ is. count-other i is b in
      completes new (exec-cons u.linked i code m h ∙ runs) (omega (arith, many, counts code))
        λ k s found.
          subst (λ a. SnapAt (i ∷ code) m a s) (omega arith)
            (SnapAt-cons i code m m1 0 k s h counts (at k s found))
  ends-plain n i code m m1 snapshots _ h b (sticks e) = sticks (exec-cons u.linked i code m h ∙ e)
  ends-plain n i code m m1 snapshots _ h b (panics {e} before after j {mk} parts runs f) =
      panics (i ∷ before) after j (ap (λ is. i ∷ is) parts) (exec-cons u.linked i before m h ∙ runs)
        (subst (λ a. HookFails a j mk e) (omega arith) f)

  snaps-cons :
      (i : Instruction) (code : List Instruction) (m m1 : Machine) (s0 : List ℕ)
      (new : List (List ℕ))
      → step u.linked i m ≡ some m1
      → is_ebreak i.name ≡ true
      → reads m ≡ some s0
      → ((k : ℕ) (s : List ℕ) → get_elem? new k ≡ some s → SnapAt code m1 k s)
      → (k : ℕ) (s : List ℕ) → get_elem? (s0 ∷ new) k ≡ some s
      → SnapAt (i ∷ code) m k s
  unfolding exec
  snaps-cons i code m m1 s0 new h b read at zero s found = record {
    before = [];
    at_ebreak = i;
    after = code;
    parts = refl;
    hit = b;
    nth = refl;
    reached = m;
    runs = refl;
    read = read ∙ found;
  }
  snaps-cons i code m m1 s0 new h b read at (suc k) s found =
      subst (λ a. SnapAt (i ∷ code) m a s) (omega arith)
        (SnapAt-cons i code m m1 1 k s h (λ is. count-break i is b) (at k s found))

  ends-break :
      (n : ℕ) (i : Instruction) (code : List Instruction) (m m1 : Machine)
      (snapshots : List (List ℕ)) (s0 : List ℕ) (r : HookedRun)
      → step u.linked i m ≡ some m1
      → is_ebreak i.name ≡ true
      → reads m ≡ some s0
      → RunEnds (n + 1) code m1 (snapshots ++ s0 ∷ []) r
      → RunEnds n (i ∷ code) m snapshots r
  unfolding exec
  ends-break n i code m m1 snapshots s0 _ h b read (completes {m'} new runs many at) =
      let counts : (is : List Instruction) → count_ebreaks (i ∷ is) ≡ 1 + count_ebreaks is =
        λ is. count-break i is b in
      subst (λ ss. RunEnds n (i ∷ code) m snapshots (completed ss m'))
        (sym (append_assoc snapshots (s0 ∷ []) new))
        (completes (s0 ∷ new) (exec-cons u.linked i code m h ∙ runs)
          (omega (arith, many, counts code)) (snaps-cons i code m m1 s0 new h b read at))
  ends-break n i code m m1 snapshots s0 _ h b read (sticks e) =
      sticks (exec-cons u.linked i code m h ∙ e)
  ends-break n i code m m1 snapshots s0 _ h b read (panics {e} before after j {mk} parts runs f) =
      panics (i ∷ before) after j (ap (λ is. i ∷ is) parts) (exec-cons u.linked i before m h ∙ runs)
        (subst (λ a. HookFails a j mk e) (omega arith) f)

  run_hooked-next :
      (n : ℕ) (i : Instruction) (code : List Instruction) (m m1 : Machine)
      (snapshots snapshots' : List (List ℕ))
      → code_hook d u n i m snapshots ≡ given snapshots'
      → step u.linked i m ≡ some m1
      → run_hooked d u n (i ∷ code) m snapshots ≡ run_hooked d u (n + 1) code m1 snapshots'
  unfolding run_hooked
  run_hooked-next n i code m m1 snapshots snapshots' hook h = rw (hook, h, run_hooked) refl

  -- The run of a program under the hook ends in one of three ways. It completes, as the program
  -- runs to its end, and then there is one snapshot for each EBREAK, the k-th being the stack as it
  -- is read from the machine that the instructions in front of the k-th EBREAK lead to. Or the
  -- program has an instruction that cannot be executed. Or the hook panics in front of an
  -- instruction that the program reaches, where the emulator or the reading of the stack fails.
  pub run_hooked-RunEnds :
      (n : ℕ) (code : List Instruction) (m : Machine) (snapshots : List (List ℕ))
      → RunEnds n code m snapshots (run_hooked d u n code m snapshots)
  unfolding run_hooked exec
  run_hooked-RunEnds n [] m snapshots =
      subst (λ ss. RunEnds n [] m snapshots (completed ss m)) (append-nil snapshots)
        (completes [] refl refl λ k s found. absurd (none-some found))
  run_hooked-RunEnds n (i ∷ code) m snapshots = elim (hook_cases n i m snapshots) [
    | inr (inr (e, f, hook)) ↦
        rw (hook, run_hooked)
          (panics [] code i refl refl (subst (λ a. HookFails a i m e) (omega arith) f))
    | inl (b, hook) ↦ elim (Option-cases (step u.linked i m)) [
      | inl h ↦ rw (hook, h, run_hooked) (sticks (exec-stuck u.linked i code m h))
      | inr (m1, h) ↦
          subst (RunEnds n (i ∷ code) m snapshots)
            (sym (run_hooked-next n i code m m1 snapshots _ hook h))
            (ends-plain n i code m m1 snapshots _ h b
              (run_hooked-RunEnds (n + 1) code m1 snapshots))
    ]
    | inr (inl (s, b, read, hook)) ↦ elim (Option-cases (step u.linked i m)) [
      | inl h ↦ rw (hook, h, run_hooked) (sticks (exec-stuck u.linked i code m h))
      | inr (m1, h) ↦
          subst (RunEnds n (i ∷ code) m snapshots)
            (sym (run_hooked-next n i code m m1 snapshots _ hook h))
            (ends-break n i code m m1 snapshots s _ h b read
              (run_hooked-RunEnds (n + 1) code m1 (snapshots ++ s ∷ [])))
    ]
  ]
