-- ===== src/Tests/Data.antt =====
-- The theorems on the data and the storage section, at small sections.
use erigon_risc_v_executable.Prelude.{◌≡◌, refl, some, codes, lookup}
use erigon_risc_v_executable.Sections.{
  DataSection, new_data_section, new_storage_section, iter, add, store, load,
}
use erigon_risc_v_executable.Sections.Invariant.{
  IsIndexed, new_data_section-IsIndexed, label_value, add-IsIndexed, add-binds,
}
use erigon_risc_v_executable.Sections.Storage.{
  Stored, new_storage_section-IsStored, store-Stored, load-first_write,
}
use erigon_risc_v_executable.Tests.{test_deps, test_deps-IsDeps}

-- the section that holds 9 and 0
abbrev two_values : DataSection
two_values = (add test_deps 0 (add test_deps 9 new_data_section).0).0

two_values-IsIndexed : IsIndexed test_deps two_values
two_values-IsIndexed =
    add-IsIndexed test_deps 0 _
      (add-IsIndexed test_deps 9 new_data_section (new_data_section-IsIndexed test_deps))

add-binds_example :
    label_value (iter (add test_deps 9 two_values).0) (add test_deps 9 two_values).1 ≡ some 9
add-binds_example = add-binds test_deps test_deps-IsDeps 9 two_values two_values-IsIndexed

store-Stored_example :
    Stored test_deps new_storage_section two_values
      (store test_deps (codes "1") 7 new_storage_section two_values)
store-Stored_example =
    store-Stored test_deps (codes "1") 7 new_storage_section two_values two_values-IsIndexed
      (new_storage_section-IsStored test_deps two_values)

load-first_write_example :
    let (ss1, ds1, _) = store test_deps (codes "1") 7 new_storage_section two_values in
    let (ss2, ds2, _) = store test_deps (codes "1") 8 ss1 ds1 in
    let (ss3, ds3, name) = load test_deps (codes "1") ss2 ds2 in
    label_value (iter ds3) name ≡ some 7
unfolding lookup
load-first_write_example =
    load-first_write test_deps test_deps-IsDeps (codes "1") 7 8 new_storage_section two_values
      two_values-IsIndexed refl
