-- ===== src/Transpiler/Mappings/Adding.antt =====
-- Methods of `Transpiler` (transpiler/transpiler.go) that only append instructions and leave the debug
-- mappings, and their sequences.
use erigon_risc_v_executable.Prelude.{
  ℕ, ◌≡◌, refl, sym, ◌∙◌, List, [], ◌++◌, append_assoc, append-nil, Option, none, some, Bool, true,
  false, String, last?, Option-cases, inl, inr, if◌then◌else◌,
}
use erigon_risc_v_executable.Assembly.{Instruction}
use erigon_risc_v_executable.Deps.{Deps}
use erigon_risc_v_executable.Transpiler.{Transpiler, TranspilerConfig}
use erigon_risc_v_executable.Transpiler.Effects.{
  M, Error, Outcome, ok, err, panic, continue, ◌>>=◌, emit, emit_config, deref, raise, load_value,
  add_value, emit_result, result_from_trace_call,
}

-- `t` is `tr` with more instructions and the same mappings.
pub record Adds (tr t : Transpiler) : Type 0 where
  pub code : List Instruction
  pub appended : t.instructions ≡ tr.instructions ++ code
  pub same_mappings : t.debug_mappings ≡ tr.debug_mappings
  pub same_config : t.config ≡ tr.config

pub Adds-refl : (tr : Transpiler) → Adds tr tr
Adds-refl tr = record {
  code = [];
  appended = sym (append-nil tr.instructions);
  same_mappings = refl;
  same_config = refl;
}

pub Adds-trans : {a b c : Transpiler} → Adds a b → Adds b c → Adds a c
Adds-trans x y = record {
  code = x.code ++ y.code;
  appended = y.appended ∙ rw x.appended (append_assoc _ x.code y.code);
  same_mappings = y.same_mappings ∙ x.same_mappings;
  same_config = y.same_config ∙ x.same_config;
}

-- What holds where a method returns without an error.
pub data After {A : Type 0} (Q : A → Transpiler → Type 0) : Outcome A → Type 0 where
  returns : {a : A} {t : Transpiler} → Q a t → After Q (ok a t)
  fails : {e : Error} {t : Transpiler} → After Q (err e t)
  panics : After Q panic

abbrev pub IsAdding : {A : Type 0} → M A → Type 0
IsAdding m = (tr : Transpiler) → After (λ _ t. Adds tr t) (m tr)

pub After-bind :
    {A B : Type 0} {Q : A → Transpiler → Type 0} {R : B → Transpiler → Type 0} (o : Outcome A)
    (f : A → M B)
    → After Q o
    → ((a : A) (t : Transpiler) → Q a t → After R (f a t))
    → After R (continue f o)
After-bind _ f (returns {a} {t} q) k = k a t q
After-bind _ f fails k = fails
After-bind _ f panics k = panics

After-trans :
    {A : Type 0} {a b : Transpiler} (o : Outcome A)
    → Adds a b
    → After (λ _ t. Adds b t) o
    → After (λ _ t. Adds a t) o
After-trans _ x (returns y) = returns (Adds-trans x y)
After-trans _ x fails = fails
After-trans _ x panics = panics

pub Adding-bind :
    {A B : Type 0} (m : M A) (f : A → M B)
    → IsAdding m
    → ((a : A) → IsAdding (f a))
    → IsAdding (m >>= f)
Adding-bind m f hm hf tr = After-bind (m tr) f (hm tr) (λ a t x. After-trans (f a t) x (hf a t))

pub Adding-emit : (is : List Instruction) → IsAdding (emit is)
Adding-emit is tr =
    returns (record { code = is; appended = refl; same_mappings = refl; same_config = refl })

pub Adding-emit_config : (f : TranspilerConfig → List Instruction) → IsAdding (emit_config f)
Adding-emit_config f tr =
    returns
      (record { code = f tr.config; appended = refl; same_mappings = refl; same_config = refl })

-- a change of other fields
pub Adds-kept :
    (tr t : Transpiler)
    → t.instructions ≡ tr.instructions
    → t.debug_mappings ≡ tr.debug_mappings
    → t.config ≡ tr.config
    → Adds tr t
Adds-kept tr t si sm sc = record {
  code = [];
  appended = si ∙ sym (append-nil tr.instructions);
  same_mappings = sm;
  same_config = sc;
}

pub Adding-deref : {A : Type 0} (o : Option A) → IsAdding (deref o)
Adding-deref none tr = panics
Adding-deref (some a) tr = returns (Adds-refl tr)

pub Adding-raise : {A : Type 0} (e : Error) → IsAdding (raise {A = A} e)
Adding-raise e tr = fails

pub Adding-if :
    {A : Type 0} (b : Bool) (m k : M A) → IsAdding m → IsAdding k → IsAdding (if b then m else k)
Adding-if true m k hm hk = hm
Adding-if false m k hm hk = hk

module _ (d : Deps) where
  pub Adding-load_value : (v : ℕ) → IsAdding (load_value d v)
  unfolding load_value add_value
  Adding-load_value v tr =
      returns (record { code = _; appended = refl; same_mappings = refl; same_config = refl })

  pub Adding-emit_result :
      (result_stack : Option (List ℕ)) (n : ℕ) (name : String)
      → IsAdding (emit_result d result_stack n name)
  unfolding emit_result result_from_trace_call add_value
  Adding-emit_result none n name tr = fails
  Adding-emit_result (some a) n name tr = elim (Option-cases (last? a)) [
    | inl e ↦ rw (e, emit_result, result_from_trace_call) fails
    | inr (v, e) ↦
        rw (e, emit_result, result_from_trace_call)
          (returns (record { code = _; appended = refl; same_mappings = refl; same_config = refl }))
  ]
