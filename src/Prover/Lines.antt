-- ===== src/Prover/Lines.antt =====
-- `bytes.Split` at line ends, and the search of a line, as prover/prover.go uses them.
use erigon_risc_v_executable.Prelude.{
  ℕ, zero, suc, ◌<◌, ◌≡◌, refl, sym, ap, ap₂, none-some, some-injective, ◌∙◌, inl, inr, List, [],
  ◌∷◌, Option, none, some, Bool, true, false, Bool-cases, ◌==◌, ◌&&◌, Text, length, get_elem?, All,
  arith, if◌then◌else◌,
}
use erigon_risc_v_executable.Compiler.{join}

-- `c` in front of the first line
abbrev first_onto : ℕ → List Text → List Text
first_onto c [] = (c ∷ []) ∷ []
first_onto c (l ∷ ls) = (c ∷ l) ∷ ls

-- `bytes.Split(_, []byte("\n"))`
unfoldable pub lines : Text → List Text
lines [] = [] ∷ []
lines (c ∷ s) = let rest = lines s in if c == 10 then [] ∷ rest else first_onto c rest

-- `bytes.HasPrefix(line, prefix)`
unfoldable pub has_prefix : Text → Text → Bool
has_prefix line [] = true
has_prefix [] (p ∷ ps) = false
has_prefix (c ∷ s) (p ∷ ps) = (c == p) && has_prefix s ps

-- the loop over the lines, which stops at the first with the prefix
unfoldable pub find_line : Text → List Text → Option Text
unfolding has_prefix
find_line prefix [] = none
find_line prefix (l ∷ ls) =
    let later = find_line prefix ls in if has_prefix l prefix then some l else later

before_first :
    (prefix x : Text) (ls : List Text) (i : ℕ)
    → has_prefix x prefix ≡ false
    → ((k : ℕ) (l' : Text) → k < i → get_elem? ls k ≡ some l' → has_prefix l' prefix ≡ false)
    → (k : ℕ) (l' : Text) → k < suc i
    → get_elem? (x ∷ ls) k ≡ some l'
    → has_prefix l' prefix ≡ false
before_first prefix x ls i miss first zero l' lt at =
    ap (λ l. has_prefix l prefix) (sym (some-injective at)) ∙ miss
before_first prefix x ls i miss first (suc k) l' lt at = first k l' (omega arith) at

-- The line that is found is the first with the prefix.
pub find_line-first :
    (prefix : Text) (ls : List Text) {l : Text}
    → find_line prefix ls ≡ some l
    → (i : ℕ) × (get_elem? ls i ≡ some l)
      × (has_prefix l prefix ≡ true)
      × ((k : ℕ) (l' : Text) → k < i → get_elem? ls k ≡ some l' → has_prefix l' prefix ≡ false)
unfolding find_line
find_line-first prefix [] h = absurd (none-some h)
find_line-first prefix (x ∷ ls) {l} h = elim (Bool-cases (has_prefix x prefix)) [
  | inl hit ↦
      let e : x ≡ l = some-injective (rw (hit, find_line) at h) in
      (0, ap some e, rw (sym e) hit, λ k l' lt at. absurd (omega arith))
  | inr miss ↦
      let (i, at, hit, first) = find_line-first prefix ls (rw (miss, find_line) at h) in
      (suc i, at, hit, λ k l' lt here. before_first prefix x ls i miss first k l' lt here)
]

-- No line is found when none has the prefix.
pub find_line-none :
    (prefix : Text) (ls : List Text)
    → find_line prefix ls ≡ none
    → All (λ l. has_prefix l prefix ≡ false) ls
unfolding find_line
find_line-none prefix [] h = tt
find_line-none prefix (x ∷ ls) h = elim (Bool-cases (has_prefix x prefix)) [
  | inl hit ↦ absurd (none-some (sym (rw (hit, find_line) at h)))
  | inr miss ↦ (miss, find_line-none prefix ls (rw (miss, find_line) at h))
]

lines-cons : (s : Text) → (l : Text) × (ls : List Text) × (lines s ≡ l ∷ ls)
unfolding lines
lines-cons [] = ([], [], refl)
lines-cons (c ∷ s) =
    let (l, ls, e) = lines-cons s in
    elim (Bool-cases (c == 10)) [
      | inl hit ↦ ([], lines s, rw (hit, lines) refl)
      | inr miss ↦ (c ∷ l, ls, rw (miss, e, lines) refl)
    ]

join-first_onto :
    (c : ℕ) (l : Text) (ls : List Text)
    → join (10 ∷ []) ((c ∷ l) ∷ ls) ≡ c ∷ join (10 ∷ []) (l ∷ ls)
unfolding join
join-first_onto c l [] = refl
join-first_onto c l (x ∷ ls) = refl

join-empty :
    (l : Text) (ls : List Text) → join (10 ∷ []) ([] ∷ l ∷ ls) ≡ 10 ∷ join (10 ∷ []) (l ∷ ls)
unfolding join
join-empty l ls = refl

-- The lines, joined by line ends, are the text.
pub join-lines : (s : Text) → join (10 ∷ []) (lines s) ≡ s
unfolding lines
join-lines [] = unfold join in refl
join-lines (c ∷ s) =
    let (l, ls, e) = lines-cons s in
    let before : join (10 ∷ []) (l ∷ ls) ≡ s = rw e at (join-lines s) in
    elim (Bool-cases (c == 10)) [
      | inl hit ↦
          let end : c ≡ 10 = ground arith in
          rw (hit, e, lines) (join-empty l ls ∙ ap₂ ◌∷◌ (sym end) before)
      | inr miss ↦ rw (miss, e, lines) (join-first_onto c l ls ∙ ap (λ t. c ∷ t) before)
    ]

-- the line ends of a text
pub line_ends : Text → ℕ
line_ends [] = 0
line_ends (c ∷ s) = let rest = line_ends s in if c == 10 then suc rest else rest

-- There is one line more than there are line ends.
pub length-lines : (s : Text) → length (lines s) ≡ suc (line_ends s)
unfolding lines line_ends
length-lines [] = refl
length-lines (c ∷ s) =
    let (l, ls, e) = lines-cons s in
    let before : suc (length ls) ≡ suc (line_ends s) = rw e at (length-lines s) in
    elim (Bool-cases (c == 10)) [
      | inl hit ↦ rw (hit, e, lines, line_ends) (ap suc before)
      | inr miss ↦ rw (miss, e, lines, line_ends) before
    ]
