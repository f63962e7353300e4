-- ===== src/Compiler/Limbs.antt =====
-- The words of `generateDataSection` (prover/compiler.go): the limbs of a value, the lowest first, in
-- eight hexadecimal digits each.
use erigon_risc_v_executable.Prelude.{
  ℕ, zero, suc, ◌+◌, ◌-◌, ◌*◌, ◌/◌, ◌%◌, ◌^◌, ◌<◌, ◌≡◌, refl, ap, ap₂, ◌∙◌, List, [], ◌∷◌, ◌++◌,
  Text, arith, ltb, if◌then◌else◌, drop, codes,
}
use erigon_risc_v_executable.Deps.{Deps, IsDeps, bytes_be}
use erigon_risc_v_executable.Compiler.{word_of, hex_digit, hex_digits, word_lines}

word_0 : (v : ℕ) → word_of (bytes_be 32 v) 0 ≡ v / 2 ^ 0 % 2 ^ 32
unfolding word_of bytes_be
word_0 v = omega arith

word_1 : (v : ℕ) → word_of (bytes_be 32 v) 1 ≡ v / 2 ^ 32 % 2 ^ 32
unfolding word_of bytes_be
word_1 v = omega arith

word_2 : (v : ℕ) → word_of (bytes_be 32 v) 2 ≡ v / 2 ^ 64 % 2 ^ 32
unfolding word_of bytes_be
word_2 v = omega arith

word_3 : (v : ℕ) → word_of (bytes_be 32 v) 3 ≡ v / 2 ^ 96 % 2 ^ 32
unfolding word_of bytes_be
word_3 v = omega arith

word_4 : (v : ℕ) → word_of (bytes_be 32 v) 4 ≡ v / 2 ^ 128 % 2 ^ 32
unfolding word_of bytes_be
word_4 v = omega arith

word_5 : (v : ℕ) → word_of (bytes_be 32 v) 5 ≡ v / 2 ^ 160 % 2 ^ 32
unfolding word_of bytes_be
word_5 v = omega arith

word_6 : (v : ℕ) → word_of (bytes_be 32 v) 6 ≡ v / 2 ^ 192 % 2 ^ 32
unfolding word_of bytes_be
word_6 v = omega arith

word_7 : (v : ℕ) → word_of (bytes_be 32 v) 7 ≡ v / 2 ^ 224 % 2 ^ 32
unfolding word_of bytes_be
word_7 v = omega arith

-- How the assembler reads a hexadecimal number.
abbrev hex_digit_value : ℕ → ℕ
hex_digit_value c = if ltb c b'a' then c - b'0' else c - b'a' + 10

abbrev pub hex_value_from : ℕ → Text → ℕ
hex_value_from acc [] = acc
hex_value_from acc (c ∷ s) = hex_value_from (acc * 16 + hex_digit_value c) s

hex_value_from-append :
    (s t : Text) (acc : ℕ) → hex_value_from acc (s ++ t) ≡ hex_value_from (hex_value_from acc s) t
hex_value_from-append [] t acc = refl
hex_value_from-append (c ∷ s) t acc = hex_value_from-append s t (acc * 16 + hex_digit_value c)

hex_digit_value-hex_digit : (n : ℕ) → n < 16 → hex_digit_value (hex_digit n) ≡ n
unfolding hex_digit
hex_digit_value-hex_digit n h = ground arith

shifted : (acc p p' n : ℕ) → p' ≡ p * 16 → (acc * p + n / 16) * 16 + n % 16 ≡ acc * p' + n
shifted acc p p' n e = rw e (omega arith)

hex_value_from-hex_digits :
    (k n acc : ℕ) → n < 16 ^ k → hex_value_from acc (hex_digits k n) ≡ acc * 16 ^ k + n
unfolding hex_digits
hex_value_from-hex_digits zero n acc h = omega (arith, h)
hex_value_from-hex_digits (suc k) n acc h =
    let next : 16 ^ suc k ≡ 16 ^ k * 16 = omega arith in
    hex_value_from-append (hex_digits k (n / 16)) _ acc
    ∙ ap₂ (λ a b. a * 16 + b) (hex_value_from-hex_digits k (n / 16) acc (omega (arith, h, next)))
        (hex_digit_value-hex_digit (n % 16) (omega arith))
    ∙ shifted acc (16 ^ k) (16 ^ suc k) n next

-- The number behind `0x` on a line, which stands after `    .word `.
unfoldable pub line_value : Text → ℕ
line_value line = hex_value_from 0 (drop 12 line)

-- The number of which the lines are the limbs, the lowest first: what the words are in a
-- little-endian memory.
unfoldable pub limbs_value : List Text → ℕ
limbs_value [] = 0
limbs_value (line ∷ lines) = line_value line + 2 ^ 32 * limbs_value lines

line_value-word : (w : ℕ) → w < 2 ^ 32 → line_value (codes "    .word 0x" ++ hex_digits 8 w) ≡ w
unfolding line_value
line_value-word w h = hex_value_from-hex_digits 8 w 0 (omega (arith, h)) ∙ omega arith

-- One round of the loop over the words.
line_step :
    (left i : ℕ) (bytes : List ℕ) {w r : ℕ}
    → word_of bytes i ≡ w
    → w < 2 ^ 32
    → limbs_value (word_lines left (i + 1) bytes) ≡ r
    → limbs_value (word_lines (suc left) i bytes) ≡ w + 2 ^ 32 * r
unfolding limbs_value word_lines
line_step left i bytes e small rest =
    ap₂ (λ a b. a + 2 ^ 32 * b)
      (ap (λ a. line_value (codes "    .word 0x" ++ hex_digits 8 a)) e ∙ line_value-word _ small)
      rest

no_lines : (i : ℕ) (bytes : List ℕ) → limbs_value (word_lines 0 i bytes) ≡ 0
unfolding limbs_value word_lines
no_lines i bytes = refl

-- Every variable's eight lines, read back as limbs, the lowest first, give its value, for every
-- value of 256 bits, with libraries that do what is documented.
pub word_lines-limbs_value :
    (d : Deps) (v : ℕ) → IsDeps d → v < 2 ^ 256 → limbs_value (word_lines 8 0 (d.bytes32 v)) ≡ v
word_lines-limbs_value d v ok h =
    let b = bytes_be 32 v in
    ap (λ c. limbs_value (word_lines 8 0 c)) (ok.bytes32_lem v h)
    ∙ line_step 7 0 b (word_0 v) (omega arith) (
        line_step 6 1 b (word_1 v) (omega arith) (
          line_step 5 2 b (word_2 v) (omega arith) (
            line_step 4 3 b (word_3 v) (omega arith) (
              line_step 3 4 b (word_4 v) (omega arith) (
                line_step 2 5 b (word_5 v) (omega arith) (
                  line_step 1 6 b (word_6 v) (omega arith)
                    (line_step 0 7 b (word_7 v) (omega arith) (no_lines 8 b))))))))
    ∙ omega (arith, h)
