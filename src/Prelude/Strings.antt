-- ===== src/Prelude/Strings.antt =====
-- Texts as lists of their bytes, their equality test, and `%d`: decimal digits.
use Prim.Native.Nat.{ℕ, zero, suc, ◌+◌, ◌-◌, ◌*◌, ◌/◌, ◌%◌, ◌<◌}
use Prim.Native.Char.{code}
use Prim.Native.String.{String}
use mathlib.Core.Path.{◌≡◌, refl, ap}
use mathlib.Core.Logic.{◌↔◌}
use mathlib.Core.Bool.{Bool, true, false, ◌&&◌}
use mathlib.Core.List.{List, [], ◌∷◌, ◌++◌}
use native.Mathlib.Omega.{arith}
use erigon_risc_v_executable.Prelude.Tests.{ltb, ◌==◌, if◌then◌else◌}

-- A Go string is its bytes; every literal of the program is ASCII where it is compared.
abbrev pub Text : Type 0
Text = List ℕ

abbrev pub codes : String → Text
codes String.[] = []
codes (String.◌∷◌ c s) = code c ∷ codes s

-- `==` on strings
abbrev pub text_eq : Text → Text → Bool
text_eq [] [] = true
text_eq [] (_ ∷ _) = false
text_eq (_ ∷ _) [] = false
text_eq (a ∷ s) (b ∷ t) = (a == b) && text_eq s t

pub text_eq_sound : (s t : Text) → text_eq s t ≡ true → s ≡ t
text_eq_sound [] [] h = refl
text_eq_sound [] (b ∷ t) h = ground arith
text_eq_sound (a ∷ s) [] h = ground arith
text_eq_sound (a ∷ s) (b ∷ t) h = ground (arith, text_eq_sound s t)

pub text_eq_refl : (s : Text) → text_eq s s ≡ true
text_eq_refl [] = refl
text_eq_refl (a ∷ s) = ground (arith, text_eq_refl s)

pub text_eq_iff : (s t : Text) → (text_eq s t ≡ true) ↔ (s ≡ t)
text_eq_iff s t = (text_eq_sound s t, λ e. rw e (text_eq_refl t))

-- The decimal digits of `n`, with fuel: `%d` and `strconv.FormatInt`.
decimal_fuel : ℕ → ℕ → Text
decimal_fuel zero n = []
decimal_fuel (suc fuel) n =
    let last = (b'0' + n % 10) ∷ [] in
    let before = decimal_fuel fuel (n / 10) in if ltb n 10 then last else before ++ last

unfoldable pub decimal : ℕ → Text
unfolding decimal_fuel
decimal n = decimal_fuel (suc n) n

-- the number that a run of digits stands for
abbrev digit_value : ℕ → ℕ → ℕ
digit_value acc c = acc * 10 + (c - b'0')

value_from : ℕ → Text → ℕ
value_from acc [] = acc
value_from acc (c ∷ s) = value_from (digit_value acc c) s

value_from-append :
    (s t : Text) (acc : ℕ) → value_from acc (s ++ t) ≡ value_from (value_from acc s) t
unfolding value_from
value_from-append [] t acc = refl
value_from-append (c ∷ s) t acc = value_from-append s t (digit_value acc c)

value_from-decimal_fuel : (fuel n : ℕ) → n < fuel → value_from 0 (decimal_fuel fuel n) ≡ n
unfolding value_from decimal_fuel
value_from-decimal_fuel zero n h = absurd (omega arith)
value_from-decimal_fuel (suc fuel) n h = ground (
  arith,
  value_from-append (decimal_fuel fuel (n / 10)) ((b'0' + n % 10) ∷ []) 0,
  value_from-decimal_fuel fuel (n / 10),
)

-- Two numbers with the same digits are equal.
pub decimal-injective : (m n : ℕ) → decimal m ≡ decimal n → m ≡ n
unfolding decimal
decimal-injective m n e = omega (
  arith,
  value_from-decimal_fuel (suc m) m (omega arith),
  value_from-decimal_fuel (suc n) n (omega arith),
  ap (value_from 0) e,
)

pub append-cancel : (s t u : Text) → s ++ t ≡ s ++ u → t ≡ u
append-cancel [] t u e = e
append-cancel (c ∷ s) t u e = append-cancel s t u (cc)
