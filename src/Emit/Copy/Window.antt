-- ===== src/Emit/Copy/Window.antt =====
-- The bytes that the copy methods of transpiler/transpiler.go cut out of call data, code and return
-- data.
use erigon_risc_v_executable.Prelude.{
  ℕ, zero, suc, ◌+◌, ◌-◌, ◌%◌, ◌^◌, ◌≤◌, ◌<◌, ◌≡◌, refl, ap, ◌∙◌, List, [], ◌∷◌, ◌++◌, some, ltb,
  lt→ltb, length, take, drop, replicate, length-append, length-take, length-drop, length-replicate,
  arith, if◌then◌else◌,
}
use native.Mathlib.Decide.{dec_lt}
use erigon_risc_v_executable.Emit.Copy.{copy, slice, window}

module _ {ℓ} {A : Type ℓ} where
  length-copy : (dst src : List A) → length (copy dst src) ≡ length dst
  unfolding copy
  length-copy dst src = omega (
    arith,
    length-append (take (length dst) src) (drop (length src) dst),
    length-take (length dst) src,
    length-drop (length src) dst,
  )

slice-eq :
    (xs : List ℕ) (lo hi : ℕ)
    → lo ≤ hi
    → hi ≤ length xs
    → slice xs lo hi ≡ some (take (hi - lo) (drop lo xs))
unfolding slice
slice-eq xs lo hi h k = ground arith

-- the byte at an index, 0 past the end
abbrev pub byte_or_zero : List ℕ → ℕ → ℕ
byte_or_zero [] i = 0
byte_or_zero (x ∷ xs) zero = x
byte_or_zero (x ∷ xs) (suc i) = byte_or_zero xs i

byte_or_zero-past : (xs : List ℕ) (i : ℕ) → length xs ≤ i → byte_or_zero xs i ≡ 0
byte_or_zero-past [] i h = refl
byte_or_zero-past (x ∷ xs) zero h = absurd (omega arith)
byte_or_zero-past (x ∷ xs) (suc i) h = byte_or_zero-past xs i (omega arith)

byte_or_zero-drop :
    (n : ℕ) (xs : List ℕ) (i : ℕ) → byte_or_zero (drop n xs) i ≡ byte_or_zero xs (n + i)
byte_or_zero-drop zero xs i = ap (byte_or_zero xs) (omega arith)
byte_or_zero-drop (suc n) [] i = refl
byte_or_zero-drop (suc n) (x ∷ xs) i = ground (arith, byte_or_zero-drop n xs i)

byte_or_zero-take :
    (n : ℕ) (xs : List ℕ) (i : ℕ) → i < n → byte_or_zero (take n xs) i ≡ byte_or_zero xs i
byte_or_zero-take zero xs i h = absurd (omega arith)
byte_or_zero-take (suc n) [] i h = refl
byte_or_zero-take (suc n) (x ∷ xs) zero h = refl
byte_or_zero-take (suc n) (x ∷ xs) (suc i) h = byte_or_zero-take n xs i (omega arith)

byte_or_zero-append :
    (xs ys : List ℕ) (i : ℕ)
    → byte_or_zero (xs ++ ys) i
      ≡ (if ltb i (length xs) then byte_or_zero xs i else byte_or_zero ys (i - length xs))
byte_or_zero-append [] ys i = ground arith
byte_or_zero-append (x ∷ xs) ys zero = ground arith
byte_or_zero-append (x ∷ xs) ys (suc i) = ground (arith, byte_or_zero-append xs ys i)

byte_or_zero-replicate : (n i : ℕ) → byte_or_zero (replicate n 0) i ≡ 0
byte_or_zero-replicate zero i = refl
byte_or_zero-replicate (suc n) zero = refl
byte_or_zero-replicate (suc n) (suc i) = byte_or_zero-replicate n i

-- zeros overwritten from the front
byte_or_zero-copy :
    (n : ℕ) (src : List ℕ) (i : ℕ)
    → i < n
    → byte_or_zero (copy (replicate n 0) src) i ≡ byte_or_zero src i
unfolding copy
byte_or_zero-copy n src i h = ground (
  arith,
  length-replicate {A = ℕ} n 0,
  length-take n src,
  length-append (take n src) (drop (length src) (replicate n 0)),
  byte_or_zero-append (take n src) (drop (length src) (replicate n 0)) i,
  byte_or_zero-take n src i,
  byte_or_zero-past src i,
  byte_or_zero-drop (length src) (replicate n 0) (i - length (take n src)),
  byte_or_zero-replicate n (length src + (i - length (take n src))),
)

-- the end of the slice, without the wrap
abbrev cut : List ℕ → ℕ → ℕ
cut bytes sum = if ltb (length bytes) sum then length bytes else sum

-- the part of the bytes that is copied
abbrev part_of : ℕ → List ℕ → ℕ → List ℕ
part_of size bytes offset = take (cut bytes (offset + size) - offset) (drop offset bytes)

window_inside :
    (size : ℕ) (bytes : List ℕ) (offset : ℕ)
    → offset < length bytes
    → length bytes + size < 2 ^ 64
    → window size bytes offset ≡ some (copy (replicate size 0) (part_of size bytes offset))
unfolding window copy
window_inside size bytes offset inside fits =
    let no_wrap : (offset + size) % 2 ^ 64 ≡ offset + size = omega arith in
    let cut_low : offset ≤ cut bytes (offset + size) = ground arith in
    let cut_high : cut bytes (offset + size) ≤ length bytes = ground arith in
    rw
      (
        window,
        no_wrap,
        slice-eq bytes offset (cut bytes (offset + size)) cut_low cut_high,
        lt→ltb offset (length bytes) inside,
      )
      refl

window_outside :
    (size : ℕ) (bytes : List ℕ) (offset : ℕ)
    → length bytes ≤ offset
    → window size bytes offset ≡ some (replicate size 0)
unfolding window
window_outside size bytes offset h = ground arith

byte_or_zero-part_of :
    (size : ℕ) (bytes : List ℕ) (offset i : ℕ)
    → i < size
    → byte_or_zero (part_of size bytes offset) i ≡ byte_or_zero bytes (offset + i)
byte_or_zero-part_of size bytes offset i h =
    let k = cut bytes (offset + size) - offset in
    ground (
      arith,
      byte_or_zero-take k (drop offset bytes) i,
      byte_or_zero-drop offset bytes i,
      length-take k (drop offset bytes),
      length-drop offset bytes,
      byte_or_zero-past (take k (drop offset bytes)) i,
      byte_or_zero-past bytes (offset + i),
    )

-- The window of the call data never panics, has the size asked for, and holds the bytes from the
-- offset on and zeros past their end, as long as the bytes and the size together are below 2 ^ 64;
-- the offset may be any number.
pub window_lem :
    (size : ℕ) (bytes : List ℕ) (offset : ℕ)
    → length bytes + size < 2 ^ 64
    → (w : List ℕ) × (window size bytes offset ≡ some w)
      × (length w ≡ size)
      × ((i : ℕ) → i < size → byte_or_zero w i ≡ byte_or_zero bytes (offset + i))
window_lem size bytes offset fits = elim (dec_lt offset (length bytes)) [
  | yes inside ↦ (
    copy (replicate size 0) (part_of size bytes offset),
    window_inside size bytes offset inside fits,
    length-copy (replicate size 0) (part_of size bytes offset) ∙ length-replicate size 0,
    λ i h.
        byte_or_zero-copy size (part_of size bytes offset) i h
        ∙ byte_or_zero-part_of size bytes offset i h,
  )
  | no outside ↦ (
    replicate size 0,
    window_outside size bytes offset (omega arith),
    length-replicate size 0,
    λ i h. omega (arith, byte_or_zero-replicate size i, byte_or_zero-past bytes (offset + i)),
  )
]
