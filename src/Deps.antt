-- ===== src/Deps.antt =====
-- What the program takes from its libraries: holiman/uint256 and Erigon's `core/vm`. An integer of
-- `uint256.Int` is the number that it stands for.
use erigon_risc_v_executable.Prelude.{
  ℕ, zero, suc, ◌+◌, ◌*◌, ◌/◌, ◌%◌, ◌^◌, ◌≤◌, ◌<◌, ◌≡◌, List, [], ◌∷◌, Text, length,
}
use erigon_risc_v_executable.Opcode.{Opcode}

pub record Deps : Type 0 where
  -- `value.Hex()`
  pub hex : ℕ → Text
  -- `new(uint256.Int).SetBytes(bytes)`
  pub set_bytes : List ℕ → ℕ
  -- `value.Uint64()`
  pub uint64 : ℕ → ℕ
  -- `value.Bytes32()`
  pub bytes32 : ℕ → List ℕ
  -- `op.String()`
  pub op_string : Opcode → Text

-- the number of big-endian bytes
unfoldable pub big_endian_from : ℕ → List ℕ → ℕ
big_endian_from acc [] = acc
big_endian_from acc (b ∷ bs) = big_endian_from (acc * 256 + b) bs

unfoldable pub big_endian : List ℕ → ℕ
unfolding big_endian_from
big_endian bs = big_endian_from 0 bs

-- the `k` low bytes of a number, the most significant first
unfoldable pub bytes_be : ℕ → ℕ → List ℕ
bytes_be zero v = []
bytes_be (suc k) v = (v / 256 ^ k % 256) ∷ bytes_be k v

-- The documented behaviour of the library: different integers print differently, at most 32
-- bytes are read big-endian, `Uint64` is the low 64 bits, and `Bytes32` writes 32 bytes.
pub record IsDeps (d : Deps) : Type 0 where
  pub hex_injective : (v w : ℕ) → d.hex v ≡ d.hex w → v ≡ w
  pub set_bytes_lem : (bs : List ℕ) → length bs ≤ 32 → d.set_bytes bs ≡ big_endian bs
  pub uint64_lem : (v : ℕ) → d.uint64 v ≡ v % 2 ^ 64
  pub bytes32_lem : (v : ℕ) → v < 2 ^ 256 → d.bytes32 v ≡ bytes_be 32 v
