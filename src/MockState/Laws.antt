-- ===== src/MockState/Laws.antt =====
-- What the operations of `MockState` (tracer/mock_state_db.go) do to each other.
use erigon_risc_v_executable.Prelude.{
  ℕ, ◌+◌, ◌-◌, ◌%◌, ◌^◌, ◌<◌, ◌≡◌, refl, List, Option, none, some, ◌&&◌, Text, text_eq,
  text_eq_refl, text_eq_iff, text_eq_sound, insert, lookup-insert, if◌then◌else◌, Bool-cases, inl,
  inr, arith, ap, ◌∙◌,
}
use erigon_risc_v_executable.MockState.{
  MockState, get_balance, add_balance, sub_balance, get_state, set_state, slots, get_code, set_code,
  get_nonce, create_account, setup_contract,
}

-- A slot of an address reads what was written to it, and every other slot, of this or another
-- address, what it read before.
pub get_state-set_state :
    (a b k j : Text) (v : ℕ) (s : MockState)
    → get_state b j (set_state a k v s)
      ≡ (if text_eq a b && text_eq k j then v else get_state b j s)
unfolding get_state set_state slots
get_state-set_state a b k j v s = ground (
  arith,
  lookup-insert a b (insert k v (slots a s)) s.storage,
  lookup-insert k j v (slots a s),
  text_eq_iff a b,
)

get_balance-set_balance :
    (a b : Text) (v : ℕ) (s : MockState)
    → get_balance b (record s { balances = insert a v s.balances })
      ≡ (if text_eq a b then v else get_balance b s)
unfolding get_balance
get_balance-set_balance a b v s = ground (arith, lookup-insert a b v s.balances)

-- A contract that is set up has the code and the balance that it was given, 0 for none, and nonce
-- 0, and the slots of every address are left.
pub setup_contract-sets :
    (a b k : Text) (bytes : List ℕ) (balance : Option ℕ) (s : MockState)
    → let s' = setup_contract a bytes balance s in
      (get_code a s' ≡ bytes)
      × (get_balance a s' ≡ elim balance [ none ↦ 0 | some v ↦ v % 2 ^ 256 ])
      × (get_nonce a s' ≡ 0)
      × (get_state b k s' ≡ get_state b k s)
unfolding setup_contract get_code get_balance get_nonce get_state slots create_account set_code
    add_balance
setup_contract-sets a b k bytes none s = (
  ground (arith, lookup-insert a a bytes s.code, text_eq_refl a),
  ground (arith, lookup-insert a a 0 s.balances, text_eq_refl a),
  ground (arith, lookup-insert a a 0 s.nonces, text_eq_refl a),
  refl,
)
setup_contract-sets a b k bytes (some v) s = (
  ground (arith, lookup-insert a a bytes s.code, text_eq_refl a),
  ground (
    arith,
    lookup-insert a a 0 s.balances,
    lookup-insert a a (v % 2 ^ 256) (insert a 0 s.balances),
    text_eq_refl a,
    get_balance-set_balance a a 0 s,
    get_balance-set_balance a a _ (record s { balances = insert a 0 s.balances }),
  ),
  ground (arith, lookup-insert a a 0 s.nonces, text_eq_refl a),
  refl,
)

get_balance-add_balance :
    (a b : Text) (v : ℕ) (s : MockState)
    → get_balance b (add_balance a v s)
      ≡ (if text_eq a b then (get_balance a s + v) % 2 ^ 256 else get_balance b s)
unfolding add_balance
get_balance-add_balance a b v s = get_balance-set_balance a b ((get_balance a s + v) % 2 ^ 256) s

get_balance-sub_balance :
    (a b : Text) (v : ℕ) (s : MockState)
    → get_balance b (sub_balance a v s)
      ≡ (if text_eq a b then (get_balance a s + (2 ^ 256 - v)) % 2 ^ 256 else get_balance b s)
unfolding sub_balance
get_balance-sub_balance a b v s =
    get_balance-set_balance a b ((get_balance a s + (2 ^ 256 - v)) % 2 ^ 256) s

-- An amount that is added to a balance and taken away again leaves it, whether the sum wraps or
-- not, when the balance and the amount are below 2 ^ 256; other addresses keep theirs.
pub sub_balance-add_balance :
    (a b : Text) (v : ℕ) (s : MockState)
    → get_balance b s < 2 ^ 256
    → v < 2 ^ 256
    → get_balance b (sub_balance a v (add_balance a v s)) ≡ get_balance b s
sub_balance-add_balance a b v s small fits = elim (Bool-cases (text_eq a b)) [
  | inl e ↦
      let same : get_balance a s ≡ get_balance b s =
        ap (λ c. get_balance c s) (text_eq_sound a b e) in
      get_balance-sub_balance a b v (add_balance a v s)
      ∙ rw (e, get_balance-add_balance a a v s, text_eq_refl a, same) (omega (arith, small, fits))
  | inr e ↦
      get_balance-sub_balance a b v (add_balance a v s)
      ∙ rw (e, get_balance-add_balance a b v s, e) refl
]
