-- ===== src/Emit/Copy.antt =====
-- transpiler/transpiler.go, `calldataloadCall`, `codecopyCall` and `returndatacopyCall`: runs of
-- instructions over bytes of the trace, which add their words to the data section.
pub mod Window
pub mod CallData
use erigon_risc_v_executable.Prelude.{
  ℕ, zero, suc, ◌+◌, ◌-◌, ◌/◌, ◌%◌, ◌^◌, List, [], ◌∷◌, ◌++◌, Option, none, some, pos, ltb, leb,
  length, take, drop, replicate, if◌then◌else◌, ◌&&◌,
}
use erigon_risc_v_executable.Assembly.{t0, t1, t2, li, la, reg, imm, label, Instruction, instr}
use erigon_risc_v_executable.Deps.{Deps}
use erigon_risc_v_executable.Sections.{DataSection, add}
use erigon_risc_v_executable.Emit.{load_word, store_word, load_from_data_section}

-- `copy(dst, src)`: as many items as fit
unfoldable pub copy {ℓ} : {A : Type ℓ} → List A → List A → List A
copy dst src = take (length dst) src ++ drop (length src) dst

-- `xs[lo:hi]`; `none` is the panic on bounds out of order or out of range
unfoldable pub slice {ℓ} : {A : Type ℓ} → List A → ℕ → ℕ → Option (List A)
slice xs lo hi =
    if leb lo hi && leb hi (length xs) then some (take (hi - lo) (drop lo xs)) else none

-- The `size` bytes of `bytes` from `offset`, padded with zeros: the buffer, its guard, the cut of
-- `end` (in uint64) and the copy, which the three methods share.
unfoldable pub window : ℕ → List ℕ → ℕ → Option (List ℕ)
unfolding copy slice
window size bytes offset =
    let buffer = replicate size 0 in
    let sum = (offset + size) % 2 ^ 64 in
    let end = if ltb (length bytes) sum then length bytes else sum in
    if ltb offset (length bytes)
    then elim (slice bytes offset end) [ none ↦ none | some part ↦ some (copy buffer part) ]
    else some buffer

-- The eight word copies of a chunk, from byte `word_offset` on.
unfoldable pub copy_chunk : ℕ → ℕ → List Instruction
copy_chunk zero word_offset = []
copy_chunk (suc left) word_offset =
    load_word t2 word_offset t1 ∷ store_word t2 word_offset t0 ∷ copy_chunk left (word_offset + 4)

module _ (d : Deps) where
  -- `calldataloadCall`: the section afterwards and the instructions; `none` is a panic.
  unfoldable pub calldataload_call :
      ℕ → List ℕ → DataSection → Option (DataSection × List Instruction)
  unfolding window
  calldataload_call offset call_data ds = elim (window 32 call_data offset) [
    | none ↦ none
    | some bytes ↦
        let (ds', name) = add d (d.set_bytes bytes) ds in some (ds', load_from_data_section name)
  ]

  -- The loop over chunks of 32 bytes of the two copy methods, at byte `i`, `left` rounds to go.
  unfoldable pub copy_chunks : ℕ → ℕ → ℕ → List ℕ → DataSection → DataSection × List Instruction
  unfolding copy copy_chunk
  copy_chunks zero i dest_offset buffer ds = (ds, [])
  copy_chunks (suc left) i dest_offset buffer ds =
      let chunk = copy (replicate 32 0) (drop i buffer) in
      let (ds1, name) = add d (d.set_bytes chunk) ds in
      let (ds2, rest) = copy_chunks left (i + 32) dest_offset buffer ds1 in
      (
        ds2,
        (instr li (reg t0 ∷ imm (pos ((dest_offset + i) % 2 ^ 64)) ∷ [])
              ∷ instr la (reg t1 ∷ label name ∷ [])
              ∷ [])
            ++ (copy_chunk 8 0 ++ rest),
      )

  -- `codecopyCall`; the loop makes a round for each 32 bytes begun
  unfoldable pub codecopy_call :
      ℕ → ℕ → ℕ → List ℕ → DataSection → Option (DataSection × List Instruction)
  unfolding window copy_chunks
  codecopy_call dest_offset code_offset size code_data ds =
      elim (window size code_data code_offset) [
        | none ↦ none
        | some code_to_copy ↦ some (copy_chunks ((size + 31) / 32) 0 dest_offset code_to_copy ds)
      ]

  -- `returndatacopyCall`
  unfoldable pub returndatacopy_call :
      ℕ → ℕ → ℕ → List ℕ → DataSection → Option (DataSection × List Instruction)
  unfolding window copy_chunks
  returndatacopy_call dest_offset return_data_offset size return_data ds =
      elim (window size return_data return_data_offset) [
        | none ↦ none
        | some return_data_to_copy ↦
            some (copy_chunks ((size + 31) / 32) 0 dest_offset return_data_to_copy ds)
      ]
