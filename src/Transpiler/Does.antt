-- ===== src/Transpiler/Does.antt =====
-- Methods of `Transpiler` (transpiler/transpiler.go) that return in the configuration of the commands,
-- and their sequences.
pub use erigon_risc_v_executable.Transpiler.Extends.{
  Covers, IsWellFormed, Extends, Extends-refl, Extends-trans,
}
use erigon_risc_v_executable.Prelude.{
  ℕ, zero, suc, ◌+◌, ◌≡◌, refl, sym, subst, subst₂, ap, ◌∙◌, List, [], ◌++◌, append-nil, some,
  String, Text, last?, pos, arith,
}
use erigon_risc_v_executable.Assembly.{Instruction}
use erigon_risc_v_executable.Deps.{Deps}
use erigon_risc_v_executable.Sections.{add}
use erigon_risc_v_executable.Sections.Invariant.{
  IsExtended-refl, add-IsExtended, add-IsIndexed, add-grows, add-named,
}
use erigon_risc_v_executable.Sections.Storage.{IsStored-grown}
use erigon_risc_v_executable.Emit.{load_from_data_section}
use erigon_risc_v_executable.Machine.{Linked}
use erigon_risc_v_executable.Machine.Balance.{
  Balanced, Balanced-nil, Balanced-append, Balanced-resize, Balanced-cancel, Balanced-pop_stack,
  Balanced-push_opcode, Balanced-load_from_data_section,
}
use erigon_risc_v_executable.Transpiler.{Transpiler, TranspilerConfig, production_config}
use erigon_risc_v_executable.Transpiler.Effects.{
  M, ok, pure, gets, modify, ◌>>=◌, emit, emit_config, pop_args, host_optimized_opcode, emit_host,
  store_debug_info, add_value, load_value, result_from_trace_call, emit_result,
}

module _ (d : Deps) where
  -- From every state with the invariant the method returns, without an error or a panic.
  pub record Does {ℓ} {A : Type ℓ} (m : M A) (pops pushes : ℕ) : Type ℓ where
    pub at :
        (tr : Transpiler)
        → tr.config ≡ production_config
        → IsWellFormed d tr
        → (a : A) × (tr' : Transpiler) × (m tr ≡ ok a tr') × Extends d pops pushes tr tr'

  module _ {ℓ κ} {A : Type ℓ} {B : Type κ} where
    pub Does-bind :
        {a b c e : ℕ} (m : M A) (f : A → M B)
        → Does m a b
        → ((x : A) → Does (f x) c e)
        → Does (m >>= f) (a + c) (b + e)
    Does-bind m f hm hf = record {
      at = λ tr prod inv.
          let (x, t1, e1, s1) = hm.at tr prod inv in
          let (y, t2, e2, s2) = (hf x).at t1 (s1.same_config ∙ prod) s1.well_formed in
          (y, t2, rw e1 e2, Extends-trans d s1 s2);
    }

  module _ {ℓ} {A : Type ℓ} where
    pub Does-resize : (a b : ℕ) {a' b' : ℕ} {m : M A} → Does m a b → a ≡ a' → b ≡ b' → Does m a' b'
    Does-resize a b {m = m} h ea eb = subst₂ (λ x y. Does m x y) ea eb h

    pub Does-cancel : {a b : ℕ} {m : M A} → Does m (suc a) (suc b) → Does m a b
    Does-cancel h = record {
      at = λ tr prod inv.
          let (x, t1, e1, s1) = h.at tr prod inv in
          (
            x,
            t1,
            e1,
            record {
              code = s1.code;
              appended = s1.appended;
              same_config = s1.same_config;
              well_formed = s1.well_formed;
              grown = s1.grown;
              balanced = λ l cover. Balanced-cancel l (s1.balanced l cover);
            },
          );
    }

    pub Does-pure : (x : A) → Does (pure x) 0 0
    Does-pure x = record { at = λ tr prod inv. (x, tr, refl, Extends-refl d tr inv) }

    pub Does-gets : (f : Transpiler → A) → Does (gets f) 0 0
    Does-gets f = record { at = λ tr prod inv. (f tr, tr, refl, Extends-refl d tr inv) }

  -- a change of fields that the invariant does not speak of
  pub Does-modify :
      (f : Transpiler → Transpiler)
      → ((tr : Transpiler)
          → ((f tr).instructions ≡ tr.instructions)
            × ((f tr).config ≡ tr.config)
            × ((f tr).data_section ≡ tr.data_section)
            × ((f tr).storage_section ≡ tr.storage_section))
      → Does (modify f) 0 0
  Does-modify f same = record {
    at = λ tr prod inv.
        let (si, sc, sd, ss) = same tr in
        (
          tt,
          f tr,
          refl,
          record {
            code = [];
            appended = si ∙ sym (append-nil tr.instructions);
            same_config = sc;
            well_formed = record { indexed = rw sd inv.indexed; stored = rw (sd, ss) inv.stored };
            grown = rw sd (IsExtended-refl tr.data_section);
            balanced = λ l cover. Balanced-nil l;
          },
        );
  }

  pub Does-emit :
      {a b : ℕ} {code : List Instruction}
      → ((l : Linked) → Balanced l a b code)
      → Does (emit code) a b
  Does-emit {code = code} h = record {
    at = λ tr prod inv. (
      tt,
      record tr { instructions = tr.instructions ++ code },
      refl,
      record {
        code = code;
        appended = refl;
        same_config = refl;
        well_formed = record { indexed = inv.indexed; stored = inv.stored };
        grown = IsExtended-refl tr.data_section;
        balanced = λ l cover. h l;
      },
    );
  }

  pub Does-store_debug_info : (start : ℕ) (name : Text) → Does (store_debug_info start name) 0 0
  unfolding store_debug_info
  Does-store_debug_info start name = Does-modify _ (λ tr. ground arith)

  pub Balanced-pop_args : (l : Linked) (n : ℕ) → Balanced l n 0 (pop_args n)
  unfolding pop_args
  Balanced-pop_args l zero = Balanced-nil l
  Balanced-pop_args l (suc n) =
      Balanced-resize l (1 + n) 0 (Balanced-append l (Balanced-pop_stack l) (Balanced-pop_args l n))
        (omega arith) refl

  -- A value from the trace: its variable, behind the pops of the arguments.
  value_loaded :
      (n v : ℕ)
      → Does (add_value d v >>= λ name. emit (pop_args n ++ load_from_data_section name)) n 1
  unfolding add_value
  value_loaded n v = record {
    at = λ tr prod inv.
        let (ds, name) = add d v tr.data_section in
        let (i, below, named) = add-named d v tr.data_section inv.indexed in
        let code = pop_args n ++ load_from_data_section name in
        (
          tt,
          record tr { data_section = ds; instructions = tr.instructions ++ code },
          refl,
          record {
            code = code;
            appended = refl;
            same_config = refl;
            well_formed = record {
              indexed = add-IsIndexed d v tr.data_section inv.indexed;
              stored =
                  IsStored-grown d tr.storage_section tr.data_section ds
                    (add-grows d v tr.data_section) inv.stored;
            };
            grown = add-IsExtended d v tr.data_section;
            balanced = λ l cover.
                let (a, placed) = cover i below in
                Balanced-resize l (n + 0) 1
                  (Balanced-append l (Balanced-pop_args l n)
                    (Balanced-load_from_data_section l name (ap l.labels named ∙ placed)))
                  (omega arith) refl;
          },
        );
  }

  pub Does-load_value : (v : ℕ) → Does (load_value d v) 0 1
  unfolding load_value pop_args
  Does-load_value v = value_loaded 0 v

  -- `resultFromTraceCall` with the stack that the opcode left
  pub Does-emit_result :
      (n : ℕ) (name : String) (a : List ℕ) {result : ℕ}
      → last? a ≡ some result
      → Does (emit_result d (some a) n name) n 1
  unfolding emit_result
  Does-emit_result n name a {result} h = rw (h, result_from_trace_call) (value_loaded n result)

  -- what a method does after it has read the configuration
  pub Does-config {ℓ} :
      {B : Type ℓ} {a b : ℕ} (k : TranspilerConfig → M B)
      → Does (k production_config) a b
      → Does (gets (λ tr. tr.config) >>= k) a b
  Does-config {B = B} {a} {b} k h = record {
    at = λ tr prod inv.
        subst (λ c. (x : B) × (tr' : Transpiler) × (k c tr ≡ ok x tr') × Extends d a b tr tr')
          (sym prod) (h.at tr prod inv);
  }

  -- what a method does after it has read the call depth
  pub Does-depth {ℓ} :
      {B : Type ℓ} {a b : ℕ} (k : ℕ → M B)
      → ((depth : ℕ) → Does (k depth) a b)
      → Does (gets (λ tr. tr.current_depth) >>= k) a b
  Does-depth k h = record { at = λ tr prod inv. (h tr.current_depth).at tr prod inv }

  pub Does-emit_config :
      {a b : ℕ} (f : TranspilerConfig → List Instruction)
      → ((l : Linked) → Balanced l a b (f production_config))
      → Does (emit_config f) a b
  Does-emit_config f h = Does-config (λ config. emit (f config)) (Does-emit h)

  pub Does-emit_host : (original : List Instruction) (n : ℕ) → Does (emit_host original n) n 1
  unfolding host_optimized_opcode
  Does-emit_host original n =
      Does-emit_config (λ c. host_optimized_opcode c original n)
        λ l.
          Balanced-resize l (n + 0) 1
            (Balanced-append l (Balanced-pop_args l n) (Balanced-push_opcode l (pos 0)))
            (omega arith) refl
