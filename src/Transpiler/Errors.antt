-- ===== src/Transpiler/Errors.antt =====
-- The error paths of `AddInstructionWithResult` and `ProcessExecution` (transpiler/transpiler.go).
use erigon_risc_v_executable.Prelude.{
  ℕ, suc, ◌≡◌, refl, sym, ap, ◌∙◌, subst, subst₂, ◌⊎◌, List, [], ◌∷◌, ◌++◌, Option, some,
  Option-cases, Bool, true, false, inl, inr, length, if◌then◌else◌, arith,
}
use erigon_risc_v_executable.Deps.{Deps}
use erigon_risc_v_executable.Trace.{EvmExecutionState, EvmInstructionMetadata}
use erigon_risc_v_executable.Transpiler.{Transpiler}
use erigon_risc_v_executable.Transpiler.Effects.{
  M, Error, Outcome, ok, err, panic, continue, store_debug_info,
}
use erigon_risc_v_executable.Transpiler.Switch.{Flow, break_switch, returned, switch_arithmetic}
use erigon_risc_v_executable.Transpiler.Step.{
  add_instruction_with_result, finish_instruction, restore_instruction, result_stack_of,
  process_from, process_execution, Snapshots,
}
use erigon_risc_v_executable.Transpiler.Atomic.{switch-atomic}
use erigon_risc_v_executable.Transpiler.Atomic.Unfailing.{ok-err, err-same, panic-err, IsSafe}

module _ (d : Deps) (op : EvmInstructionMetadata) where
  finish_unfailing : (start : ℕ) (f : Flow) → IsSafe (finish_instruction d op start f)
  unfolding finish_instruction store_debug_info
  finish_unfailing start returned tr t e h = ok-err h
  finish_unfailing start break_switch tr t e h = ok-err h

  restore_unfailing : (start : ℕ) → IsSafe (restore_instruction d op start)
  unfolding restore_instruction store_debug_info
  restore_unfailing start tr t e h = ok-err h

  -- An error of the first part is that of the whole, when the second part has none.
  continue-atomic {ℓ κ} :
      {A : Type ℓ} {B : Type κ} {tr tr' : Transpiler} {e : Error} (o : Outcome A) (f : A → M B)
      → ((a : A) → IsSafe (f a))
      → ((t : Transpiler) (x : Error) → o ≡ err x t → t ≡ tr)
      → continue f o ≡ err e tr'
      → tr' ≡ tr
  continue-atomic (ok a t) f hf ho h = absurd (hf a t _ _ h)
  continue-atomic (err x t) f hf ho h = err-same h ∙ ho t x refl
  continue-atomic panic f hf ho h = absurd (panic-err h)

  if-atomic :
      {tr tr' : Transpiler} {e : Error} (b : Bool) (o p : Outcome (Unit {0}))
      → (o ≡ err e tr' → tr' ≡ tr)
      → (p ≡ err e tr' → tr' ≡ tr)
      → (if b then o else p) ≡ err e tr'
      → tr' ≡ tr
  if-atomic true o p ho hp = ho
  if-atomic false o p ho hp = hp

  -- An item whose translation fails changes nothing: when the method returns an error, whatever the
  -- item, the state, the result stack and the configuration are, the transpiler is the one before
  -- the call.
  pub add_instruction_with_result-atomic :
      (state : Option EvmExecutionState) (result_stack : Option (List ℕ)) (tr tr' : Transpiler)
      (e : Error)
      → add_instruction_with_result d op state result_stack tr ≡ err e tr'
      → tr' ≡ tr
  unfolding add_instruction_with_result
  add_instruction_with_result-atomic state result_stack tr tr' e =
      let start = length tr.instructions in
      if-atomic op.is_stack_restore _ _ (λ h. absurd (restore_unfailing start tr _ _ h))
        λ h.
          continue-atomic (switch_arithmetic d op state result_stack start op.opcode tr)
            (finish_instruction d op start) (finish_unfailing start)
            (λ t x k. switch-atomic d op state result_stack start op.opcode tr k) h

-- The items of `before`, with those of `behind` after them, are translated one after the other, from
-- the first transpiler to the second, each with the result stack that the trace holds for it.
pub data Reaches (d : Deps) (state : Option EvmExecutionState)
    (behind : List EvmInstructionMetadata)
    : List EvmInstructionMetadata → Transpiler → Transpiler → Type 0 where
  here : {tr : Transpiler} → Reaches d state behind [] tr tr
  next :
      {op : EvmInstructionMetadata} {before : List EvmInstructionMetadata} {r : Option (List ℕ)}
      {tr t tr' : Transpiler}
      → result_stack_of op (before ++ behind) ≡ some r
      → add_instruction_with_result d op state r tr ≡ ok tt t
      → Reaches d state behind before t tr'
      → Reaches d state behind (op ∷ before) tr tr'

-- What is translated before an item that fails: the items that precede it, and that item.
pub record Stopped (d : Deps) (state : Option EvmExecutionState) (ops : List EvmInstructionMetadata)
    (e : Error) (first tr : Transpiler) : Type 0 where
  pub before : List EvmInstructionMetadata
  pub failing : EvmInstructionMetadata
  pub behind : List EvmInstructionMetadata
  pub parts : ops ≡ before ++ failing ∷ behind
  pub reached : Reaches d state (failing ∷ behind) before first tr
  pub result_stack : Option (List ℕ)
  pub stack_found : result_stack_of failing behind ≡ some result_stack
  pub fails : add_instruction_with_result d failing state result_stack tr ≡ err e tr

pub Outcome-cases {ℓ} :
    {A : Type ℓ} (o : Outcome A)
    → ((a : A) × (t : Transpiler) × (o ≡ ok a t))
      ⊎ (((e : Error) × (t : Transpiler) × (o ≡ err e t)) ⊎ (o ≡ panic))
Outcome-cases (ok a t) = inl (a, t, refl)
Outcome-cases (err e t) = inr (inl (e, t, refl))
Outcome-cases panic = inr (inr refl)

module _ (d : Deps) (state : Option EvmExecutionState) where
  earlier :
      {op : EvmInstructionMetadata} {rest : List EvmInstructionMetadata} {r : Option (List ℕ)}
      {e : Error} {first t tr : Transpiler}
      → result_stack_of op rest ≡ some r
      → add_instruction_with_result d op state r first ≡ ok tt t
      → Stopped d state rest e t tr
      → Stopped d state (op ∷ rest) e first tr
  earlier {op} {r} found done s = record {
    before = op ∷ s.before;
    failing = s.failing;
    behind = s.behind;
    parts = ap (λ xs. op ∷ xs) s.parts;
    reached = next (subst (λ xs. result_stack_of op xs ≡ some r) s.parts found) done s.reached;
    result_stack = s.result_stack;
    stack_found = s.stack_found;
    fails = s.fails;
  }

  not_stopped :
      {snaps : Snapshots} {e : Error} {tr : Transpiler}
      → (let o : Outcome (Snapshots × Option Error) = panic in o ≡ ok (snaps, some e) tr)
      → ⊥
  not_stopped h = ground arith

  stopped_with :
      {snaps snaps' : Snapshots} {x e : Error} {t tr : Transpiler}
      → (let o : Outcome (Snapshots × Option Error) = ok (snaps, some x) t in
          o ≡ ok (snaps', some e) tr)
      → (x ≡ e) × (t ≡ tr)
  stopped_with h = (ground arith, ground arith)

  process_from-stops :
      (i : ℕ) (snaps snaps' : Snapshots) (ops : List EvmInstructionMetadata) (e : Error)
      (tr tr' : Transpiler)
      → process_from d state i snaps ops tr ≡ ok (snaps', some e) tr'
      → Stopped d state ops e tr tr'
  unfolding process_from
  process_from-stops i snaps snaps' [] e tr tr' h = ground arith
  process_from-stops i snaps snaps' (op ∷ rest) e tr tr' h =
      elim (Option-cases (result_stack_of op rest)) [
        | inl none_found ↦ absurd (not_stopped (rw (none_found, process_from) at h))
        | inr (r, found) ↦ elim (Outcome-cases (add_instruction_with_result d op state r tr)) [
          | inl (_, t, done) ↦ earlier found done (
              process_from-stops (suc i) _ snaps' rest e t tr'
                (rw (found, done, process_from) at h))
          | inr (inl (x, t, failed)) ↦
              let (same_error, same_state) = stopped_with (rw (found, failed, process_from) at h) in
              let kept = add_instruction_with_result-atomic d op state r tr t x failed in
              record {
                before = [];
                failing = op;
                behind = rest;
                parts = refl;
                reached =
                    subst (λ a. Reaches d state (op ∷ rest) [] tr a) (sym kept ∙ same_state) here;
                result_stack = r;
                stack_found = found;
                fails =
                    subst₂ (λ a b. add_instruction_with_result d op state r a ≡ err b tr')
                      (sym kept ∙ same_state) same_error (failed ∙ ap (err x) same_state);
              }
          | inr (inr panics) ↦ absurd (not_stopped (rw (found, panics, process_from) at h))
        ]
      ]

  -- When the loop over a trace ends with an error, some item of the trace is the one that failed:
  -- the items in front of it were translated one after the other, from the first transpiler to the
  -- one that comes back, and translating the failing item from there fails with the same error and
  -- changes nothing.
  pub process_execution-stops :
      (ops : List EvmInstructionMetadata) (tr tr' : Transpiler) (snaps : Snapshots) (e : Error)
      → process_execution d state ops tr ≡ ok (snaps, some e) tr'
      → Stopped d state ops e tr tr'
  unfolding process_execution
  process_execution-stops ops tr tr' snaps e h = process_from-stops 0 [] snaps ops e tr tr' h
