-- ===== src/Tests/Accounts.antt =====
-- The theorems on the mock state, at small inputs.
use erigon_risc_v_executable.Prelude.{◌≡◌, codes, arith, lookup}
use erigon_risc_v_executable.MockState.{new_mock_state, get_balance, add_balance, sub_balance}
use erigon_risc_v_executable.MockState.Laws.{sub_balance-add_balance}

sub_balance-add_balance_example :
    get_balance (codes "a") (sub_balance (codes "a") 9 (add_balance (codes "a") 9 new_mock_state))
    ≡ get_balance (codes "a") new_mock_state
unfolding get_balance lookup
sub_balance-add_balance_example =
    sub_balance-add_balance (codes "a") (codes "a") 9 new_mock_state (omega arith) (omega arith)
