-- ===== src/Sections.antt =====
-- transpiler/transpiler.go, `DataSection` and `StorageSection`: the variables of the data section,
-- each value once, and the variables that storage slots were given.
pub mod Invariant
pub mod Storage
use erigon_risc_v_executable.Prelude.{
  ℕ, ◌+◌, ◌-◌, List, [], ◌∷◌, ◌++◌, none, some, Text, codes, decimal, Assoc, lookup, insert, length,
}
use erigon_risc_v_executable.Assembly.{DataVariable}
use erigon_risc_v_executable.Deps.{Deps}

pub record DataSection : Type 0 where
  pub values : List ℕ
  pub value_to_var : Assoc Text

pub record StorageSection : Type 0 where
  pub key_to_var : Assoc Text

abbrev pub new_data_section : DataSection
new_data_section = record { values = []; value_to_var = [] }

abbrev pub new_storage_section : StorageSection
new_storage_section = record { key_to_var = [] }

-- `fmt.Sprintf("data_var_%d", index)`
unfoldable pub var_name : ℕ → Text
var_name i = codes "data_var_" ++ decimal i

-- The loop of `Iter` from index `i`.
unfoldable pub iter_from : ℕ → List ℕ → List DataVariable
iter_from i [] = []
iter_from i (v ∷ vs) = record { name = var_name i; value = v } ∷ iter_from (i + 1) vs

-- `DataSection.Iter`
unfoldable pub iter : DataSection → List DataVariable
unfolding iter_from
iter ds = iter_from 0 ds.values

module _ (d : Deps) where
  -- `DataSection.Add`: the section afterwards, and the variable's name
  unfoldable pub add : ℕ → DataSection → DataSection × Text
  add value ds = elim (lookup (d.hex value) ds.value_to_var) [
    | some name ↦ (ds, name)
    | none ↦
        let values = ds.values ++ value ∷ [] in
        let name = var_name (length values - 1) in
        (record { values = values; value_to_var = insert (d.hex value) name ds.value_to_var }, name)
  ]

  -- `StorageSection.Store`: both sections afterwards, and the name of the slot's variable
  unfoldable pub store :
      Text → ℕ → StorageSection → DataSection → StorageSection × DataSection × Text
  unfolding add
  store key value ss ds = elim (lookup key ss.key_to_var) [
    | some name ↦ (ss, ds, name)
    | none ↦
        let (ds', name) = add value ds in
        (record { key_to_var = insert key name ss.key_to_var }, ds', name)
  ]

  -- `StorageSection.Load`: an unknown slot is given a variable that holds 0
  unfoldable pub load : Text → StorageSection → DataSection → StorageSection × DataSection × Text
  unfolding add
  load key ss ds = elim (lookup key ss.key_to_var) [
    | some name ↦ (ss, ds, name)
    | none ↦
        let (ds', name) = add 0 ds in
        (record { key_to_var = insert key name ss.key_to_var }, ds', name)
  ]
