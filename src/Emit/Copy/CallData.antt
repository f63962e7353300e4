-- ===== src/Emit/Copy/CallData.antt =====
-- `calldataloadCall` (transpiler/transpiler.go): the word of the call data that it pushes.
use erigon_risc_v_executable.Prelude.{
  ℕ, ◌+◌, ◌^◌, ◌<◌, ◌≡◌, refl, ap, ◌∙◌, List, some, Text, length, arith,
}
use erigon_risc_v_executable.Deps.{Deps, IsDeps, big_endian}
use erigon_risc_v_executable.Sections.{DataSection, iter, add}
use erigon_risc_v_executable.Sections.Invariant.{label_value, IsIndexed, add-binds, add-IsIndexed}
use erigon_risc_v_executable.Emit.{load_from_data_section}
use erigon_risc_v_executable.Emit.Copy.{calldataload_call}
use erigon_risc_v_executable.Emit.Copy.Window.{byte_or_zero, window_lem}

-- The call-data load never panics, and pushes a variable of the section that it leaves; the
-- variable holds the big-endian number of the 32 bytes of the call data from the offset on, zeros
-- past the end, whatever the offset is, and the section keeps its invariant, with libraries that do
-- what is documented and call data of less than 2 ^ 64 - 32 bytes.
pub calldataload_call-binds :
    (d : Deps) (offset : ℕ) (bytes : List ℕ) (ds : DataSection)
    → IsDeps d
    → length bytes + 32 < 2 ^ 64
    → IsIndexed d ds
    → (ds' : DataSection) × (name : Text) × (w : List ℕ) × (calldataload_call d offset bytes ds
        ≡ some (ds', load_from_data_section name))
      × (length w ≡ 32)
      × ((i : ℕ) → i < 32 → byte_or_zero w i ≡ byte_or_zero bytes (offset + i))
      × (label_value (iter ds') name ≡ some (big_endian w))
      × IsIndexed d ds'
unfolding calldataload_call
calldataload_call-binds d offset bytes ds ok fits inv =
    let (w, cut, size, same) = window_lem 32 bytes offset fits in
    let value = ok.set_bytes_lem w (omega (arith, size)) in
    (
      (add d (d.set_bytes w) ds).0,
      (add d (d.set_bytes w) ds).1,
      w,
      rw (cut, calldataload_call) refl,
      size,
      same,
      add-binds d ok (d.set_bytes w) ds inv ∙ ap some value,
      add-IsIndexed d (d.set_bytes w) ds inv,
    )
