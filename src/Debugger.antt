-- ===== src/Debugger.antt =====
-- cmd/debug-transpiler/main.go: the binary search for the first opcode whose code cannot be proved.
-- The prover's verdict on an assembly text is a parameter.
pub mod Search
use erigon_risc_v_executable.Prelude.{
  ℕ, zero, suc, ◌+◌, ◌-◌, ◌/◌, List, [], ◌∷◌, ◌++◌, Option, none, some, Bool, true, false, Text,
  text_eq, ltb, length, take, if◌then◌else◌,
}
use erigon_risc_v_executable.Assembly.{Instruction, DataVariable, AssemblyFile}
use erigon_risc_v_executable.Deps.{Deps}
use erigon_risc_v_executable.Compiler.{to_tool_chain_compatible_assembly}
use erigon_risc_v_executable.Transpiler.{EvmToRiscVMapping}

-- `dataVarMap[dataVar.Name] = dataVar`
unfoldable pub set_variable : DataVariable → List DataVariable → List DataVariable
set_variable x [] = x ∷ []
set_variable x (y ∷ ys) =
    let rest = set_variable x ys in if text_eq x.name y.name then x ∷ ys else y ∷ rest

unfoldable pub set_variables : List DataVariable → List DataVariable → List DataVariable
unfolding set_variable
set_variables [] ys = ys
set_variables (x ∷ xs) ys = set_variables xs (set_variable x ys)

-- The loop of `buildAssemblyUpTo` over the mappings up to the index. A Go map is ranged over in any
-- order; here it is the order of the first insertions.
unfoldable pub collect : List EvmToRiscVMapping → AssemblyFile → AssemblyFile
unfolding set_variables
collect [] file = file
collect (x ∷ xs) file = collect xs (record {
  instructions = file.instructions ++ x.risc_v_instructions;
  data_section = set_variables x.data_variables file.data_section;
})

unfoldable pub build_assembly_up_to : Deps → Text → List EvmToRiscVMapping → ℕ → Option Text
unfolding collect to_tool_chain_compatible_assembly
build_assembly_up_to d lib_file mappings end_index =
    to_tool_chain_compatible_assembly d lib_file
      (collect (take (end_index + 1) mappings) (record { instructions = []; data_section = [] }))

-- one round: whether the file up to `mid` is generated and proved
unfoldable pub works : Deps → Text → (Text → Bool) → List EvmToRiscVMapping → ℕ → Bool
unfolding build_assembly_up_to
works d lib_file prove mappings mid = elim (build_assembly_up_to d lib_file mappings mid) [
  | none ↦ false
  | some content ↦ prove content
]

-- The loop, on fuel. `right` and `last_working` are one more than the source's, whose -1 is 0 here.
-- What comes back is `lastWorkingIndex + 1`.
unfoldable pub search : (ℕ → Bool) → ℕ → ℕ → ℕ → ℕ → ℕ
search test zero left right last_working = last_working
search test (suc fuel) left right last_working =
    if ltb left right
    then (let mid = (left + (right - 1)) / 2 in
        let on_success = search test fuel (mid + 1) right (mid + 1) in
        let on_failure = search test fuel left mid last_working in
        if test mid then on_success else on_failure)
    else last_working

-- `main` from the mappings to `lastWorkingIndex + 1`
unfoldable pub last_working_count : (ℕ → Bool) → ℕ → ℕ
unfolding search
last_working_count test n = search test n 0 n 0
