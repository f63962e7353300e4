-- ===== src/Sections/Invariant.antt =====
-- The invariant of `DataSection` (transpiler/transpiler.go), and what `Add` does to the variables.
use native.Mathlib.Nat.{zero-add}
use erigon_risc_v_executable.Prelude.{
  ℕ, zero, suc, ◌<◌, ◌≤◌, get_elem?-lt, ◌+◌, ◌-◌, ◌≡◌, refl, sym, ap, ◌⊎◌, inl, inr, List, [], ◌∷◌,
  ◌++◌, Option, none, some, Option-cases, Bool-cases, append-nil, append_assoc, ◌∙◌, Text, codes,
  text_eq, text_eq_iff, text_eq_refl, decimal-injective, append-cancel, lookup, insert,
  lookup-insert, length, get_elem?, length-append, get_elem?-append_left, get_elem?-append_end,
  if◌then◌else◌, arith,
}
use erigon_risc_v_executable.Assembly.{DataVariable}
use erigon_risc_v_executable.Deps.{Deps, IsDeps}
use erigon_risc_v_executable.Sections.{
  DataSection, new_data_section, var_name, iter, iter_from, add,
}

pub var_name-injective : (i j : ℕ) → var_name i ≡ var_name j → i ≡ j
unfolding var_name
var_name-injective i j e = decimal-injective i j (append-cancel (codes "data_var_") _ _ e)

-- The value that the label `name` stands for in a list of data variables.
unfoldable pub label_value : List DataVariable → Text → Option ℕ
label_value [] name = none
label_value (x ∷ xs) name = if text_eq x.name name then some x.value else label_value xs name

label_value-iter_from :
    (k i : ℕ) (vs : List ℕ) → label_value (iter_from k vs) (var_name (k + i)) ≡ get_elem? vs i
unfolding label_value iter_from
label_value-iter_from k i [] = refl
label_value-iter_from k zero (v ∷ vs) =
    ground (arith, text_eq_refl (var_name k), text_eq_iff (var_name k) (var_name (k + zero)))
label_value-iter_from k (suc i) (v ∷ vs) = ground (
  arith,
  text_eq_iff (var_name k) (var_name (k + suc i)),
  var_name-injective k (k + suc i),
  label_value-iter_from (k + 1) i vs,
)

-- In the exported section the label of variable i stands for the value at index i, for every index,
-- in range or not.
pub label_value-iter :
    (ds : DataSection) (i : ℕ) → label_value (iter ds) (var_name i) ≡ get_elem? ds.values i
unfolding iter
label_value-iter ds i = rw zero-add at (label_value-iter_from 0 i ds.values)

-- The second section has the variables of the first, in their places, and more behind them.
pub record IsExtended (ds ds' : DataSection) : Type 0 where
  pub more : List ℕ
  pub appended : ds'.values ≡ ds.values ++ more

pub IsExtended-refl : (ds : DataSection) → IsExtended ds ds
IsExtended-refl ds = record { more = []; appended = sym (append-nil ds.values) }

pub IsExtended-trans : {a b c : DataSection} → IsExtended a b → IsExtended b c → IsExtended a c
IsExtended-trans {a} x y = record {
  more = x.more ++ y.more;
  appended = y.appended ∙ rw x.appended (append_assoc a.values x.more y.more);
}

pub IsExtended-le : {a b : DataSection} → IsExtended a b → length a.values ≤ length b.values
IsExtended-le {a} x = rw x.appended (omega (arith, length-append a.values x.more))

module _ (d : Deps) where
  -- Every name on record is that of a variable with that value, and every variable is on record.
  pub record IsIndexed (ds : DataSection) : Type 0 where
    pub sound :
        (k name : Text)
        → lookup k ds.value_to_var ≡ some name
        → (i v : ℕ) × (get_elem? ds.values i ≡ some v) × (name ≡ var_name i) × (k ≡ d.hex v)
    pub complete :
        (i v : ℕ)
        → get_elem? ds.values i ≡ some v
        → lookup (d.hex v) ds.value_to_var ≡ some (var_name i)

  -- the section after a new value
  abbrev grown : ℕ → DataSection → DataSection
  grown v ds = record {
    values = ds.values ++ v ∷ [];
    value_to_var = insert (d.hex v) (var_name (length ds.values)) ds.value_to_var;
  }

  add-old :
      (v : ℕ) (ds : DataSection) {name : Text}
      → lookup (d.hex v) ds.value_to_var ≡ some name
      → add d v ds ≡ (ds, name)
  unfolding add
  add-old v ds e = rw (e, add) refl

  length-snoc : (ds : DataSection) (v : ℕ) → length (ds.values ++ v ∷ []) - 1 ≡ length ds.values
  length-snoc ds v = omega (arith, length-append ds.values (v ∷ []))

  add-new :
      (v : ℕ) (ds : DataSection)
      → lookup (d.hex v) ds.value_to_var ≡ none
      → add d v ds ≡ (grown v ds, var_name (length ds.values))
  unfolding add
  add-new v ds e = rw (e, add, length-snoc ds v) refl

  -- Add leaves every variable its index and its value.
  pub add-keeps :
      (v i w : ℕ) (ds : DataSection)
      → get_elem? ds.values i ≡ some w
      → get_elem? (add d v ds).0.values i ≡ some w
  add-keeps v i w ds h = elim (Option-cases (lookup (d.hex v) ds.value_to_var)) [
    | inl e ↦ rw (add-new v ds e) (get_elem?-append_left ds.values (v ∷ []) i h)
    | inr (name, e) ↦ rw (add-old v ds e) h
  ]

  grown_sound :
      (v : ℕ) (ds : DataSection)
      → IsIndexed ds
      → (k name : Text) → lookup k (grown v ds).value_to_var ≡ some name
      → (i w : ℕ) × (get_elem? (ds.values ++ v ∷ []) i ≡ some w)
        × (name ≡ var_name i)
        × (k ≡ d.hex w)
  grown_sound v ds inv k name h = elim (Bool-cases (text_eq (d.hex v) k)) [
    | inl e ↦ (
      length ds.values,
      v,
      get_elem?-append_end ds.values v,
      ground (arith, lookup-insert (d.hex v) k (var_name (length ds.values)) ds.value_to_var),
      sym ((text_eq_iff (d.hex v) k).0 e),
    )
    | inr e ↦
        let old : lookup k ds.value_to_var ≡ some name =
          ground (arith, lookup-insert (d.hex v) k (var_name (length ds.values)) ds.value_to_var) in
        let (i, w, there, named, key) = inv.sound k name old in
        (i, w, get_elem?-append_left ds.values (v ∷ []) i there, named, key)
  ]

  get_elem?-snoc :
      (xs : List ℕ) (v i : ℕ) {w : ℕ}
      → get_elem? (xs ++ v ∷ []) i ≡ some w
      → (get_elem? xs i ≡ some w) ⊎ ((i ≡ length xs) × (w ≡ v))
  get_elem?-snoc [] v zero h = inr (refl, cc)
  get_elem?-snoc [] v (suc i) h = ground arith
  get_elem?-snoc (x ∷ xs) v zero h = inl h
  get_elem?-snoc (x ∷ xs) v (suc i) h = elim (get_elem?-snoc xs v i h) [
    | inl old ↦ inl old
    | inr (e, f) ↦ inr (ap suc e, f)
  ]

  grown_complete :
      (v : ℕ) (ds : DataSection)
      → IsIndexed ds
      → lookup (d.hex v) ds.value_to_var ≡ none
      → (i w : ℕ) → get_elem? (ds.values ++ v ∷ []) i ≡ some w
      → lookup (d.hex w) (grown v ds).value_to_var ≡ some (var_name i)
  grown_complete v ds inv fresh i w h = elim (get_elem?-snoc ds.values v i h) [
    | inl old ↦ ground (
      arith,
      lookup-insert (d.hex v) (d.hex w) (var_name (length ds.values)) ds.value_to_var,
      text_eq_iff (d.hex v) (d.hex w),
      inv.complete i w old,
    )
    | inr (e, f) ↦ ground (
      arith,
      lookup-insert (d.hex v) (d.hex w) (var_name (length ds.values)) ds.value_to_var,
      text_eq_iff (d.hex v) (d.hex w),
    )
  ]

  -- Add keeps the invariant of the data section: every recorded name is that of a variable with the
  -- value of its key, and every variable is recorded.
  pub add-IsIndexed : (v : ℕ) (ds : DataSection) → IsIndexed ds → IsIndexed (add d v ds).0
  add-IsIndexed v ds inv = elim (Option-cases (lookup (d.hex v) ds.value_to_var)) [
    | inl e ↦
        rw (add-new v ds e)
          (record { sound = grown_sound v ds inv; complete = grown_complete v ds inv e })
    | inr (name, e) ↦ rw (add-old v ds e) inv
  ]

  pub add-grows : (v : ℕ) (ds : DataSection) → length ds.values ≤ length (add d v ds).0.values
  add-grows v ds = elim (Option-cases (lookup (d.hex v) ds.value_to_var)) [
    | inl e ↦ rw (add-new v ds e) (omega (arith, length-append ds.values (v ∷ [])))
    | inr (name, e) ↦ rw (add-old v ds e) (omega arith)
  ]

  -- `Add` keeps the variables in their places, with at most one more behind them.
  pub add-IsExtended : (v : ℕ) (ds : DataSection) → IsExtended ds (add d v ds).0
  add-IsExtended v ds = elim (Option-cases (lookup (d.hex v) ds.value_to_var)) [
    | inl e ↦ rw (add-new v ds e) (record { more = v ∷ []; appended = refl })
    | inr (name, e) ↦ rw (add-old v ds e) (IsExtended-refl ds)
  ]

  -- The name that `Add` returns is that of a variable of the section.
  pub add-named :
      (v : ℕ) (ds : DataSection)
      → IsIndexed ds
      → (i : ℕ) × (i < length (add d v ds).0.values) × ((add d v ds).1 ≡ var_name i)
  add-named v ds inv = elim (Option-cases (lookup (d.hex v) ds.value_to_var)) [
    | inl e ↦
        rw (add-new v ds e)
          (length ds.values, omega (arith, length-append ds.values (v ∷ [])), refl)
    | inr (name, e) ↦
        let (i, w, there, named, key) = inv.sound (d.hex v) name e in
        rw (add-old v ds e) (i, get_elem?-lt ds.values i there, named)
  ]

  module _ (ok : IsDeps d) where
    -- With libraries that do what is documented, and a section that keeps the invariant, Add
    -- returns the name of a variable, and in the exported section that variable holds the added
    -- value.
    pub add-binds :
        (v : ℕ) (ds : DataSection)
        → IsIndexed ds
        → label_value (iter (add d v ds).0) (add d v ds).1 ≡ some v
    add-binds v ds inv = elim (Option-cases (lookup (d.hex v) ds.value_to_var)) [
      | inl e ↦
          rw (add-new v ds e, label_value-iter (grown v ds) (length ds.values))
            (get_elem?-append_end ds.values v)
      | inr (name, e) ↦
          let (i, w, there, named, key) = inv.sound (d.hex v) name e in
          rw (add-old v ds e, named, label_value-iter ds i, there)
            (ap some (ok.hex_injective w v (sym key)))
    ]

  -- Values are stored once: two variables of a section that keeps the invariant hold different
  -- values.
  pub values-distinct :
      (ds : DataSection) (i j v w : ℕ)
      → IsIndexed ds
      → i < j
      → get_elem? ds.values i ≡ some v
      → get_elem? ds.values j ≡ some w
      → ¬ (v ≡ w)
  values-distinct ds i j v w inv less hi hj same =
      let one : i ≡ j =
        var_name-injective i j (cc (inv.complete i v hi, inv.complete j w hj, same)) in
      omega arith

  -- Adding a value again returns the same name and changes nothing.
  pub add-add :
      (v : ℕ) (ds : DataSection) → add d v (add d v ds).0 ≡ ((add d v ds).0, (add d v ds).1)
  add-add v ds = elim (Option-cases (lookup (d.hex v) ds.value_to_var)) [
    | inl e ↦ rw (add-new v ds e) (
        add-old v (grown v ds) (
          ground (
            arith,
            lookup-insert (d.hex v) (d.hex v) (var_name (length ds.values)) ds.value_to_var,
            text_eq_refl (d.hex v),
          )))
    | inr (name, e) ↦ rw (add-old v ds e) (add-old v ds e)
  ]

pub new_data_section-IsIndexed : (d : Deps) → IsIndexed d new_data_section
unfolding lookup
new_data_section-IsIndexed d = record {
  sound = λ k name h. ground arith;
  complete = λ i v h. ground arith;
}
