-- ===== src/MockState.antt =====
-- tracer/mock_state_db.go, `MockState`: the operations that keep or read its maps. Addresses and keys
-- are their bytes, a uint256 is a number below 2 ^ 256 with the wrap-around written out. The methods
-- with an empty body or a constant result are left out.
pub mod Laws
use erigon_risc_v_executable.Prelude.{
  ℕ, ◌+◌, ◌-◌, ◌%◌, ◌^◌, List, [], Option, none, some, Text, Assoc, lookup, insert, length,
}

pub record MockState : Type 0 where
  pub balances : Assoc ℕ
  pub storage : Assoc (Assoc ℕ)
  pub code : Assoc (List ℕ)
  pub nonces : Assoc ℕ

abbrev pub new_mock_state : MockState
new_mock_state = record { balances = []; storage = []; code = []; nonces = [] }

unfoldable pub get_balance : Text → MockState → ℕ
get_balance addr s = elim (lookup addr s.balances) [ none ↦ 0 | some v ↦ v ]

unfoldable pub add_balance : Text → ℕ → MockState → MockState
unfolding get_balance
add_balance addr amount s = record s {
  balances = insert addr ((get_balance addr s + amount) % 2 ^ 256) s.balances;
}

unfoldable pub sub_balance : Text → ℕ → MockState → MockState
unfolding get_balance
sub_balance addr amount s = record s {
  balances = insert addr ((get_balance addr s + (2 ^ 256 - amount)) % 2 ^ 256) s.balances;
}

-- the slots of an address, none where it has no map
unfoldable pub slots : Text → MockState → Assoc ℕ
slots addr s = elim (lookup addr s.storage) [ none ↦ [] | some m ↦ m ]

unfoldable pub get_state : Text → Text → MockState → ℕ
unfolding slots
get_state addr key s = elim (lookup key (slots addr s)) [ none ↦ 0 | some v ↦ v ]

unfoldable pub set_state : Text → Text → ℕ → MockState → MockState
unfolding slots
set_state addr key value s = record s {
  storage = insert addr (insert key value (slots addr s)) s.storage;
}

unfoldable pub get_code : Text → MockState → List ℕ
get_code addr s = elim (lookup addr s.code) [ none ↦ [] | some bytes ↦ bytes ]

unfoldable pub get_code_size : Text → MockState → ℕ
unfolding get_code
get_code_size addr s = length (get_code addr s)

unfoldable pub set_code : Text → List ℕ → MockState → MockState
set_code addr bytes s = record s { code = insert addr bytes s.code }

unfoldable pub get_nonce : Text → MockState → ℕ
get_nonce addr s = elim (lookup addr s.nonces) [ none ↦ 0 | some v ↦ v ]

unfoldable pub set_nonce : Text → ℕ → MockState → MockState
set_nonce addr nonce s = record s { nonces = insert addr nonce s.nonces }

unfoldable pub create_account : Text → MockState → MockState
create_account addr s = record s {
  balances = insert addr 0 s.balances;
  nonces = insert addr 0 s.nonces;
}

-- the balance may be nil
unfoldable pub setup_contract : Text → List ℕ → Option ℕ → MockState → MockState
unfolding create_account set_code add_balance
setup_contract addr bytes balance s =
    let s' = set_code addr bytes (create_account addr s) in
    elim balance [ none ↦ s' | some amount ↦ add_balance addr amount s' ]
