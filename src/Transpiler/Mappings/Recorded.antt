-- ===== src/Transpiler/Mappings/Recorded.antt =====
-- The debug mappings of a transpiler (transpiler/transpiler.go, `storeDebugInfo`), and the instructions
-- that they hold.
use erigon_risc_v_executable.Prelude.{
  ℕ, ◌≡◌, refl, sym, ap, ◌∙◌, List, [], ◌∷◌, ◌++◌, append_assoc, append-nil, Bool, false, Text,
  length, drop, if◌then◌else◌,
}
use erigon_risc_v_executable.Assembly.{Instruction}
use erigon_risc_v_executable.Sections.{iter}
use erigon_risc_v_executable.Transpiler.{Transpiler, EvmToRiscVMapping}
use erigon_risc_v_executable.Transpiler.Mappings.Adding.{Adds}

-- the instructions of the mappings, one after the other
unfoldable pub recorded : List EvmToRiscVMapping → List Instruction
recorded [] = []
recorded (x ∷ xs) = x.risc_v_instructions ++ recorded xs

recorded-append :
    (xs ys : List EvmToRiscVMapping) → recorded (xs ++ ys) ≡ recorded xs ++ recorded ys
unfolding recorded
recorded-append [] ys = refl
recorded-append (x ∷ xs) ys =
    rw (recorded-append xs ys)
      (sym (append_assoc x.risc_v_instructions (recorded xs) (recorded ys)))

drop-length-append : (xs ys : List Instruction) → drop (length xs) (xs ++ ys) ≡ ys
drop-length-append [] ys = refl
drop-length-append (x ∷ xs) ys = drop-length-append xs ys

-- `t` is `tr` with more instructions, all of them in new mappings.
pub record Records (tr t : Transpiler) : Type 0 where
  pub code : List Instruction
  pub appended : t.instructions ≡ tr.instructions ++ code
  pub mapped : recorded t.debug_mappings ≡ recorded tr.debug_mappings ++ code
  pub same_config : t.config ≡ tr.config

pub Records-refl : (tr : Transpiler) → Records tr tr
Records-refl tr = record {
  code = [];
  appended = sym (append-nil tr.instructions);
  mapped = sym (append-nil (recorded tr.debug_mappings));
  same_config = refl;
}

-- what `storeDebugInfo` leaves
abbrev pub debug_stored : ℕ → Text → Transpiler → Transpiler
debug_stored start evm_opcode tr = if tr.config.disable_debug_mappings then tr else record tr {
  debug_mappings =
      tr.debug_mappings
      ++ record {
        evm_opcode = evm_opcode;
        risc_v_instructions = drop start tr.instructions;
        data_variables = iter tr.data_section;
        call_depth = tr.current_depth;
      }
        ∷ [];
}

choose :
    {tr : Transpiler} (b : Bool) (j k : Transpiler)
    → b ≡ false
    → Records tr k
    → Records tr (if b then j else k)
choose b j k e x = rw e x

pub stored-Records :
    (tr t : Transpiler) (name : Text)
    → tr.config.disable_debug_mappings ≡ false
    → Adds tr t
    → Records tr (debug_stored (length tr.instructions) name t)
unfolding recorded
stored-Records tr t name enabled x =
    let enabled_behind : t.config.disable_debug_mappings ≡ false =
      ap (λ c. c.disable_debug_mappings) x.same_config ∙ enabled in
    let mine : drop (length tr.instructions) t.instructions ≡ x.code =
      rw x.appended (drop-length-append tr.instructions x.code) in
    choose t.config.disable_debug_mappings _ _ enabled_behind (record {
      code = x.code;
      appended = x.appended;
      mapped =
          recorded-append t.debug_mappings _
          ∙ rw (x.same_mappings, mine)
              (ap (λ ys. recorded tr.debug_mappings ++ ys) (append-nil x.code));
      same_config = x.same_config;
    })
