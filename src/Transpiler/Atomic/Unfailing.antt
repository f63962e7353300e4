-- ===== src/Transpiler/Atomic/Unfailing.antt =====
-- Methods of `Transpiler` (transpiler/transpiler.go) that never return an error, and their sequences.
use erigon_risc_v_executable.Prelude.{
  ◌≡◌, refl, List, Option, none, some, Bool, true, false, if◌then◌else◌, arith,
}
use erigon_risc_v_executable.Assembly.{Instruction}
use erigon_risc_v_executable.Transpiler.{Transpiler}
use erigon_risc_v_executable.Transpiler.Effects.{
  M, emit, modify, raise, Error, Outcome, ok, err, panic, continue, ◌>>=◌, deref,
}
use erigon_risc_v_executable.Transpiler.Switch.{Flow, then_break}

module _ {ℓ} {A : Type ℓ} where
  pub ok-err : {x : A} {t t' : Transpiler} {e : Error} → ok x t ≡ err e t' → ⊥
  ok-err h = ground arith

  pub err-same :
      {t t' : Transpiler} {e e' : Error} → (let o : Outcome A = err e t in o ≡ err e' t') → t' ≡ t
  err-same h = ground arith

  pub panic-err : {t : Transpiler} {e : Error} → (let o : Outcome A = panic in o ≡ err e t) → ⊥
  panic-err h = ground arith

-- The method never returns an error.
abbrev pub IsSafe {ℓ} : {A : Type ℓ} → M A → Type ℓ
IsSafe m = (tr tr' : Transpiler) (e : Error) → m tr ≡ err e tr' → ⊥

module _ {ℓ κ} {A : Type ℓ} {B : Type κ} where
  pub continue_unfailing :
      (o : Outcome A) (f : A → M B)
      → ((t : Transpiler) (e : Error) → o ≡ err e t → ⊥)
      → ((a : A) → IsSafe (f a))
      → (t : Transpiler) (e : Error) → continue f o ≡ err e t
      → ⊥
  continue_unfailing (ok a t) f ho hf t' e h = hf a t t' e h
  continue_unfailing (err e t) f ho hf t' e' h = ho t e refl
  continue_unfailing panic f ho hf t' e h = panic-err h

  pub Safe-bind : (m : M A) (f : A → M B) → IsSafe m → ((a : A) → IsSafe (f a)) → IsSafe (m >>= f)
  Safe-bind m f hm hf tr = continue_unfailing (m tr) f (hm tr) hf

  pub Safe-deref : (o : Option A) (f : A → M B) → ((a : A) → IsSafe (f a)) → IsSafe (deref o >>= f)
  Safe-deref none f hf = λ tr t e h. panic-err h
  Safe-deref (some a) f hf = hf a

pub deref_unfailing {ℓ} : {A : Type ℓ} (o : Option A) → IsSafe (deref o)
deref_unfailing none = λ tr t e h. panic-err h
deref_unfailing (some a) = λ tr t e h. ok-err h

pub Safe-modify : (f : Transpiler → Transpiler) → IsSafe (modify f)
Safe-modify f = λ tr t e h. ok-err h

pub Safe-emit : (is : List Instruction) → IsSafe (emit is)
Safe-emit is = λ tr t e h. ok-err h

pub break_unfailing : (m : M (Unit {0})) → IsSafe m → IsSafe (then_break m)
break_unfailing m hm = Safe-bind m _ hm (λ a tr t e h. ok-err h)

pub guarded :
    {e : Error} {tr' : Transpiler} (b : Bool) (er : Error) (m : M Flow)
    → IsSafe m
    → (tr : Transpiler) → (if b then m else raise er) tr ≡ err e tr'
    → tr' ≡ tr
guarded true er m hm tr h = absurd (hm tr _ _ h)
guarded false er m hm tr h = err-same h

pub guarded_break :
    {e : Error} {tr' : Transpiler} (b : Bool) (er : Error) (m : M (Unit {0}))
    → IsSafe m
    → (tr : Transpiler) → then_break (if b then m else raise er) tr ≡ err e tr'
    → tr' ≡ tr
guarded_break true er m hm tr h = absurd (break_unfailing m hm tr _ _ h)
guarded_break false er m hm tr h = err-same h
