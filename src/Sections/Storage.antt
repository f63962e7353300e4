-- ===== src/Sections/Storage.antt =====
-- `StorageSection` (transpiler/transpiler.go): what `Store` and `Load` do to a slot's variable.
use erigon_risc_v_executable.Prelude.{
  ℕ, ◌≡◌, ◌<◌, ◌≤◌, sym, ◌∙◌, length, Bool-cases, refl, false, inl, inr, none, some, Option-cases,
  Text, text_eq, text_eq_refl, lookup, insert, lookup-insert, arith,
}
use erigon_risc_v_executable.Deps.{Deps, IsDeps}
use erigon_risc_v_executable.Sections.{
  DataSection, StorageSection, new_storage_section, var_name, iter, add, store, load,
}
use erigon_risc_v_executable.Sections.Invariant.{
  label_value, IsIndexed, add-binds, add-IsIndexed, add-named, add-grows, IsExtended,
  IsExtended-refl, add-IsExtended,
}

module _ (d : Deps) where
  store-old :
      (key : Text) (v : ℕ) (ss : StorageSection) (ds : DataSection) {name : Text}
      → lookup key ss.key_to_var ≡ some name
      → store d key v ss ds ≡ (ss, ds, name)
  unfolding store
  store-old key v ss ds e = rw (e, store) refl

  store-new :
      (key : Text) (v : ℕ) (ss : StorageSection) (ds : DataSection)
      → lookup key ss.key_to_var ≡ none
      → store d key v ss ds ≡ (
        record { key_to_var = insert key (add d v ds).1 ss.key_to_var },
        (add d v ds).0,
        (add d v ds).1,
      )
  unfolding store
  store-new key v ss ds e = rw (e, store) refl

  load-old :
      (key : Text) (ss : StorageSection) (ds : DataSection) {name : Text}
      → lookup key ss.key_to_var ≡ some name
      → load d key ss ds ≡ (ss, ds, name)
  unfolding load
  load-old key ss ds e = rw (e, load) refl

  -- Load is Store of 0: it returns the slot's variable, and gives an unknown slot a variable that
  -- holds 0.
  pub load-eq-store_zero :
      (key : Text) (ss : StorageSection) (ds : DataSection) → load d key ss ds ≡ store d key 0 ss ds
  unfolding load store
  load-eq-store_zero key ss ds = ground arith

  -- After `Store` the slot has the variable that it returned.
  lookup-store :
      (key : Text) (v : ℕ) (ss : StorageSection) (ds : DataSection)
      → lookup key (store d key v ss ds).0.key_to_var ≡ some (store d key v ss ds).2
  lookup-store key v ss ds = elim (Option-cases (lookup key ss.key_to_var)) [
    | inl e ↦
        rw (store-new key v ss ds e, lookup-insert key key (add d v ds).1 ss.key_to_var)
          (rw (text_eq_refl key) refl)
    | inr (name, e) ↦ rw (store-old key v ss ds e) e
  ]

  -- Load after Store of the same slot finds the variable that Store returned and changes nothing.
  pub load-store :
      (key : Text) (v : ℕ) (ss : StorageSection) (ds : DataSection)
      → let (ss', ds', name) = store d key v ss ds in load d key ss' ds' ≡ (ss', ds', name)
  load-store key v ss ds =
      let (ss', ds', name) = store d key v ss ds in load-old key ss' ds' (lookup-store key v ss ds)

  -- A second `Store` to a slot is dropped: it changes nothing and returns the first variable.
  pub store-store :
      (key : Text) (v w : ℕ) (ss : StorageSection) (ds : DataSection)
      → let (ss', ds', name) = store d key v ss ds in store d key w ss' ds' ≡ (ss', ds', name)
  store-store key v w ss ds =
      let (ss', ds', name) = store d key v ss ds in
      store-old key w ss' ds' (lookup-store key v ss ds)

  -- Store leaves the variable of every slot with another key.
  pub lookup-store_other :
      (key other : Text) (v : ℕ) (ss : StorageSection) (ds : DataSection)
      → text_eq key other ≡ false
      → lookup other (store d key v ss ds).0.key_to_var ≡ lookup other ss.key_to_var
  lookup-store_other key other v ss ds ne = elim (Option-cases (lookup key ss.key_to_var)) [
    | inl e ↦
        rw (store-new key v ss ds e, lookup-insert key other (add d v ds).1 ss.key_to_var, ne) refl
    | inr (name, e) ↦ rw (store-old key v ss ds e) refl
  ]

  -- Every slot's name is that of a variable of the data section.
  pub record IsStored (ss : StorageSection) (ds : DataSection) : Type 0 where
    pub named :
        (k name : Text)
        → lookup k ss.key_to_var ≡ some name
        → (i : ℕ) × (i < length ds.values) × (name ≡ var_name i)

  pub IsStored-grown :
      (ss : StorageSection) (ds ds' : DataSection)
      → length ds.values ≤ length ds'.values
      → IsStored ss ds
      → IsStored ss ds'
  IsStored-grown ss ds ds' grown h = record {
    named = λ k name e. let (i, below, same) = h.named k name e in (i, omega arith, same);
  }

  IsStored-insert :
      (key : Text) (v : ℕ) (ss : StorageSection) (ds : DataSection)
      → IsIndexed d ds
      → IsStored ss ds
      → IsStored (record { key_to_var = insert key (add d v ds).1 ss.key_to_var }) (add d v ds).0
  IsStored-insert key v ss ds inv h = record {
    named = λ k name e.
        let wider = IsStored-grown ss ds (add d v ds).0 (add-grows d v ds) h in
        let (j, below, same) = add-named d v ds inv in
        elim (Bool-cases (text_eq key k)) [
          | inl eq ↦
              let name_new : (add d v ds).1 ≡ name =
                ground (arith, lookup-insert key k (add d v ds).1 ss.key_to_var) in
              (j, below, sym name_new ∙ same)
          | inr ne ↦
              wider.named k name (ground (arith, lookup-insert key k (add d v ds).1 ss.key_to_var))
        ];
  }

  -- What `Store` leaves of the two sections, and the variable that it names.
  pub record Stored (ss : StorageSection) (ds : DataSection)
      (result : StorageSection × DataSection × Text) : Type 0 where
    pub indexed : IsIndexed d result.1
    pub stored : IsStored result.0 result.1
    pub grown : IsExtended ds result.1
    pub index : ℕ
    pub below : index < length result.1.values
    pub named : result.2 ≡ var_name index

  -- Store keeps the invariants of both sections, leaves the variables in their places with at most
  -- new ones behind them, and returns the name of a variable of the data section.
  pub store-Stored :
      (key : Text) (v : ℕ) (ss : StorageSection) (ds : DataSection)
      → IsIndexed d ds
      → IsStored ss ds
      → Stored ss ds (store d key v ss ds)
  store-Stored key v ss ds inv h = elim (Option-cases (lookup key ss.key_to_var)) [
    | inl e ↦
        let (j, below, same) = add-named d v ds inv in
        rw (store-new key v ss ds e) (record {
          indexed = add-IsIndexed d v ds inv;
          stored = IsStored-insert key v ss ds inv h;
          grown = add-IsExtended d v ds;
          index = j;
          below = below;
          named = same;
        })
    | inr (name, e) ↦
        let (j, below, same) = h.named key name e in
        rw (store-old key v ss ds e) (record {
          indexed = inv;
          stored = h;
          grown = IsExtended-refl ds;
          index = j;
          below = below;
          named = same;
        })
  ]

  -- The same of `Load`.
  pub load-Stored :
      (key : Text) (ss : StorageSection) (ds : DataSection)
      → IsIndexed d ds
      → IsStored ss ds
      → Stored ss ds (load d key ss ds)
  load-Stored key ss ds inv h = rw (load-eq-store_zero key ss ds) (store-Stored key 0 ss ds inv h)

  module _ (ok : IsDeps d) where
    -- After two writes to a slot that had none before, a load of it gives a variable that holds the
    -- first value, whatever the second was, with libraries that do what is documented and a section
    -- that keeps the invariant.
    pub load-first_write :
        (key : Text) (v w : ℕ) (ss : StorageSection) (ds : DataSection)
        → IsIndexed d ds
        → lookup key ss.key_to_var ≡ none
        → let (ss1, ds1, _) = store d key v ss ds in
          let (ss2, ds2, _) = store d key w ss1 ds1 in
          let (ss3, ds3, name) = load d key ss2 ds2 in label_value (iter ds3) name ≡ some v
    load-first_write key v w ss ds inv fresh =
        let (ss1, ds1, name) = store d key v ss ds in
        rw (store-store key v w ss ds, load-store key v ss ds, store-new key v ss ds fresh)
          (add-binds d ok v ds inv)

pub new_storage_section-IsStored : (d : Deps) (ds : DataSection) → IsStored d new_storage_section ds
unfolding lookup
new_storage_section-IsStored d ds = record { named = λ k name e. ground arith }
