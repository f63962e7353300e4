-- ===== src/Transpiler/Extends.antt =====
-- What a run of the transpiler adds in the configuration of the commands: code that runs through and
-- moves the stack pointer by whole slots, over a data section that only grows.
use erigon_risc_v_executable.Prelude.{
  ℕ, ◌+◌, ◌<◌, ◌≡◌, refl, sym, ◌∙◌, List, [], ◌++◌, append_assoc, append-nil, some, length, arith,
}
use erigon_risc_v_executable.Assembly.{Instruction}
use erigon_risc_v_executable.Deps.{Deps}
use erigon_risc_v_executable.Sections.{DataSection, var_name}
use erigon_risc_v_executable.Sections.Invariant.{
  IsIndexed, IsExtended, IsExtended-refl, IsExtended-trans, IsExtended-le,
}
use erigon_risc_v_executable.Sections.Storage.{IsStored}
use erigon_risc_v_executable.Machine.{Linked}
use erigon_risc_v_executable.Machine.Balance.{Balanced, Balanced-nil, Balanced-append}
use erigon_risc_v_executable.Transpiler.{Transpiler}

-- The linker places every variable of the section.
abbrev pub Covers : Linked → DataSection → Type 0
Covers l ds = (i : ℕ) → i < length ds.values → (a : ℕ) × (l.labels (var_name i) ≡ some a)

module _ (d : Deps) where
  -- the invariant of the two sections
  pub record IsWellFormed (tr : Transpiler) : Type 0 where
    pub indexed : IsIndexed d tr.data_section
    pub stored : IsStored d tr.storage_section tr.data_section

  -- `tr'` is `tr` with more code, which moves the stack pointer as said, and more variables.
  pub record Extends (pops pushes : ℕ) (tr tr' : Transpiler) : Type 0 where
    pub code : List Instruction
    pub appended : tr'.instructions ≡ tr.instructions ++ code
    pub same_config : tr'.config ≡ tr.config
    pub well_formed : IsWellFormed tr'
    pub grown : IsExtended tr.data_section tr'.data_section
    pub balanced : (l : Linked) → Covers l tr'.data_section → Balanced l pops pushes code

  pub Extends-refl : (tr : Transpiler) → IsWellFormed tr → Extends 0 0 tr tr
  Extends-refl tr inv = record {
    code = [];
    appended = sym (append-nil tr.instructions);
    same_config = refl;
    well_formed = inv;
    grown = IsExtended-refl tr.data_section;
    balanced = λ l cover. Balanced-nil l;
  }

  pub Extends-trans :
      {a b c e : ℕ} {t1 t2 t3 : Transpiler}
      → Extends a b t1 t2
      → Extends c e t2 t3
      → Extends (a + c) (b + e) t1 t3
  Extends-trans x y = record {
    code = x.code ++ y.code;
    appended = y.appended ∙ rw x.appended (append_assoc _ x.code y.code);
    same_config = y.same_config ∙ x.same_config;
    well_formed = y.well_formed;
    grown = IsExtended-trans x.grown y.grown;
    balanced = λ l cover.
        Balanced-append l (x.balanced l (λ i h. cover i (omega (arith, IsExtended-le y.grown))))
          (y.balanced l cover);
  }
