-- ===== src/Prelude/Lists.antt =====
-- Lists measured and indexed by native numbers, under the library's names.
use Prim.Native.Nat.{ℕ, zero, suc, ◌+◌, ◌-◌, ◌≤◌, ◌<◌, min}
use mathlib.Core.Path.{◌≡◌, refl, ap}
use mathlib.Core.Logic.{◌≢◌}
use mathlib.Core.List.{List, [], ◌∷◌, ◌++◌, map}
use mathlib.Core.Option.{Option, none, some}
use native.Mathlib.Omega.{arith}

module _ {ℓ} {A : Type ℓ} where
  abbrev pub length : List A → ℕ
  length [] = 0
  length (_ ∷ xs) = suc (length xs)

  abbrev pub get_elem? : List A → ℕ → Option A
  get_elem? [] i = none
  get_elem? (x ∷ xs) zero = some x
  get_elem? (x ∷ xs) (suc i) = get_elem? xs i

  -- A write out of bounds changes nothing.
  abbrev pub set : List A → ℕ → A → List A
  set [] i v = []
  set (x ∷ xs) zero v = v ∷ xs
  set (x ∷ xs) (suc i) v = x ∷ set xs i v

  abbrev pub update : ℕ → (A → A) → List A → List A
  update i f [] = []
  update zero f (x ∷ xs) = f x ∷ xs
  update (suc i) f (x ∷ xs) = x ∷ update i f xs

  abbrev pub take : ℕ → List A → List A
  take zero xs = []
  take (suc n) [] = []
  take (suc n) (x ∷ xs) = x ∷ take n xs

  abbrev pub drop : ℕ → List A → List A
  drop zero xs = xs
  drop (suc n) [] = []
  drop (suc n) (x ∷ xs) = drop n xs

  abbrev pub replicate : ℕ → A → List A
  replicate zero a = []
  replicate (suc n) a = a ∷ replicate n a

  -- the last item: `a[len(a)-1]`
  abbrev pub last? : List A → Option A
  last? [] = none
  last? (x ∷ []) = some x
  last? (x ∷ y ∷ xs) = last? (y ∷ xs)

  -- `P` holds of every item.
  abbrev pub All {κ} : (A → Type κ) → List A → Type κ
  All P [] = Unit
  All P (x ∷ xs) = P x × All P xs

module _ {ℓ} {A : Type ℓ} where
  pub length-append : (xs ys : List A) → length (xs ++ ys) ≡ length xs + length ys
  length-append [] ys = omega arith
  length-append (x ∷ xs) ys = omega (arith, length-append xs ys)

  pub get_elem?-append_left :
      (xs ys : List A) (i : ℕ) {a : A} → get_elem? xs i ≡ some a → get_elem? (xs ++ ys) i ≡ some a
  get_elem?-append_left [] ys i h = ground arith
  get_elem?-append_left (x ∷ xs) ys zero h = h
  get_elem?-append_left (x ∷ xs) ys (suc i) h = get_elem?-append_left xs ys i h

  pub get_elem?-append_end : (xs : List A) (a : A) → get_elem? (xs ++ a ∷ []) (length xs) ≡ some a
  get_elem?-append_end [] a = refl
  get_elem?-append_end (x ∷ xs) a = get_elem?-append_end xs a

  pub get_elem?-lt : (xs : List A) (i : ℕ) {a : A} → get_elem? xs i ≡ some a → i < length xs
  get_elem?-lt [] i h = ground arith
  get_elem?-lt (x ∷ xs) zero h = omega arith
  get_elem?-lt (x ∷ xs) (suc i) h = omega (arith, get_elem?-lt xs i h)

  pub length-replicate : (n : ℕ) (a : A) → length (replicate n a) ≡ n
  length-replicate zero a = refl
  length-replicate (suc n) a = ap suc (length-replicate n a)

  pub length-take : (n : ℕ) (xs : List A) → length (take n xs) ≡ min n (length xs)
  length-take zero xs = omega arith
  length-take (suc n) [] = omega arith
  length-take (suc n) (x ∷ xs) = omega (arith, length-take n xs)

  pub length-drop : (n : ℕ) (xs : List A) → length (drop n xs) ≡ length xs - n
  length-drop zero xs = omega arith
  length-drop (suc n) [] = omega arith
  length-drop (suc n) (x ∷ xs) = omega (arith, length-drop n xs)

  pub length-map {κ} : {B : Type κ} (xs : List A) (f : A → B) → length (map f xs) ≡ length xs
  length-map [] f = refl
  length-map (x ∷ xs) f = ap suc (length-map xs f)

  pub All-append {κ} : (P : A → Type κ) (xs ys : List A) → All P xs → All P ys → All P (xs ++ ys)
  All-append P [] ys hx hy = hy
  All-append P (x ∷ xs) ys (h, hx) hy = (h, All-append P xs ys hx hy)

  pub get_elem?-update_same :
      (xs : List A) (i : ℕ) (f : A → A) {x : A}
      → get_elem? xs i ≡ some x
      → get_elem? (update i f xs) i ≡ some (f x)
  get_elem?-update_same [] i f h = ground arith
  get_elem?-update_same (x ∷ xs) zero f h = ground arith
  get_elem?-update_same (x ∷ xs) (suc i) f h = get_elem?-update_same xs i f h

  pub get_elem?-update_other :
      (xs : List A) (i k : ℕ) (f : A → A) → i ≢ k → get_elem? (update i f xs) k ≡ get_elem? xs k
  get_elem?-update_other [] i k f h = refl
  get_elem?-update_other (x ∷ xs) zero zero f h = absurd (h refl)
  get_elem?-update_other (x ∷ xs) zero (suc k) f h = refl
  get_elem?-update_other (x ∷ xs) (suc i) zero f h = refl
  get_elem?-update_other (x ∷ xs) (suc i) (suc k) f h =
      get_elem?-update_other xs i k f (λ e. h (ap suc e))

  pub length-update : (xs : List A) (i : ℕ) (f : A → A) → length (update i f xs) ≡ length xs
  length-update [] i f = refl
  length-update (x ∷ xs) zero f = refl
  length-update (x ∷ xs) (suc i) f = ap suc (length-update xs i f)

  -- the sum of a weight of the items
  abbrev pub total : (A → ℕ) → List A → ℕ
  total w [] = 0
  total w (x ∷ xs) = w x + total w xs

  pub total-update :
      (w : A → ℕ) (xs : List A) (i : ℕ) (f : A → A) {x : A}
      → get_elem? xs i ≡ some x
      → total w (update i f xs) + w x ≡ total w xs + w (f x)
  total-update w [] i f h = ground arith
  total-update w (y ∷ xs) zero f {x} h = let e : y ≡ x = ground arith in rw e (omega arith)
  total-update w (y ∷ xs) (suc i) f h = omega (arith, total-update w xs i f h)

  -- Items that a function leaves the weight of keep the sum.
  pub total-update_same :
      (w : A → ℕ) (xs : List A) (i : ℕ) (f : A → A)
      → ((x : A) → w (f x) ≡ w x)
      → total w (update i f xs) ≡ total w xs
  total-update_same w [] i f h = refl
  total-update_same w (x ∷ xs) zero f h = rw (h x) refl
  total-update_same w (x ∷ xs) (suc i) f h = rw (total-update_same w xs i f h) refl

  pub some-injective : {x y : A} → some x ≡ some y → x ≡ y
  some-injective h = cc

  pub none-some : {x : A} → (let o : Option A = none in o ≡ some x) → ⊥
  none-some h = ground arith

  pub total-ge :
      (w : A → ℕ) (xs : List A) (i : ℕ) {x : A} → get_elem? xs i ≡ some x → w x ≤ total w xs
  total-ge w [] i h = ground arith
  total-ge w (y ∷ xs) zero {x} h = let e : y ≡ x = ground arith in rw e (omega arith)
  total-ge w (y ∷ xs) (suc i) h = omega (arith, total-ge w xs i h)

  pub update-update :
      (xs : List A) (i : ℕ) (f g : A → A) → update i f (update i g xs) ≡ update i (λ x. f (g x)) xs
  update-update [] i f g = refl
  update-update (x ∷ xs) zero f g = refl
  update-update (x ∷ xs) (suc i) f g = ap (λ ys. x ∷ ys) (update-update xs i f g)

  pub set-update : (xs : List A) (i : ℕ) (a : A) → set xs i a ≡ update i (λ x. a) xs
  set-update [] i a = refl
  set-update (x ∷ xs) zero a = refl
  set-update (x ∷ xs) (suc i) a = ap (λ ys. x ∷ ys) (set-update xs i a)

  pub get_elem?-some : (xs : List A) (i : ℕ) → i < length xs → (a : A) × (get_elem? xs i ≡ some a)
  get_elem?-some [] i h = absurd (omega arith)
  get_elem?-some (x ∷ xs) zero h = (x, refl)
  get_elem?-some (x ∷ xs) (suc i) h = get_elem?-some xs i (omega arith)

  -- Lists of one length with the same items are equal.
  pub get_elem?-ext :
      (xs ys : List A)
      → length xs ≡ length ys
      → ((i : ℕ) (a : A) → get_elem? ys i ≡ some a → get_elem? xs i ≡ some a)
      → xs ≡ ys
  get_elem?-ext [] [] e h = refl
  get_elem?-ext [] (y ∷ ys) e h = absurd (omega (arith, e))
  get_elem?-ext (x ∷ xs) [] e h = absurd (omega (arith, e))
  get_elem?-ext (x ∷ xs) (y ∷ ys) e h =
      let first : x ≡ y = some-injective (h 0 y refl) in
      let others : xs ≡ ys = get_elem?-ext xs ys (omega (arith, e)) (λ i a at. h (suc i) a at) in cc

  pub get_elem?-map {κ} :
      {B : Type κ} (f : A → B) (xs : List A) (i : ℕ) {b : B}
      → get_elem? (map f xs) i ≡ some b
      → (a : A) × (get_elem? xs i ≡ some a) × (f a ≡ b)
  get_elem?-map f [] i h = ground arith
  get_elem?-map f (x ∷ xs) zero h = (x, refl, cc)
  get_elem?-map f (x ∷ xs) (suc i) h = get_elem?-map f xs i h
