-- ===== src/Tests/Events.antt =====
-- The theorems on the tracer and on the debugger's search, at small inputs.
use erigon_risc_v_executable.Prelude.{
  ℕ, ◌+◌, ◌≤◌, ◌<◌, ◌≡◌, refl, List, [], ◌∷◌, some, Bool, true, false, ltb, ltb→lt, lt→ltb, length,
  All, arith,
}
use erigon_risc_v_executable.Opcode.{push}
use erigon_risc_v_executable.Emit.Copy.Window.{byte_or_zero}
use erigon_risc_v_executable.Transpiler.Arity.{IsFilled}
use erigon_risc_v_executable.Tracer.{
  VmContext, OpContext, new_state_tracer, captured_state, captured_item, Event, exit, opcode,
  capture, capture_tx_start, trace,
}
use erigon_risc_v_executable.Tracer.Ready.{
  captured_item-arguments, IsComplete, trace-IsComplete, trace-IsFilled,
}
use erigon_risc_v_executable.Debugger.{last_working_count}
use erigon_risc_v_executable.Debugger.Search.{
  Border, last_working_count-Border, last_working_count_iff,
}

-- the context of `PUSH2 1 (end of code)`
abbrev test_scope : OpContext
test_scope = record {
  stack_data = [];
  caller = 2 ∷ [];
  address = 1 ∷ [];
  call_value = some 0;
  call_input = [];
  code = 97 ∷ 1 ∷ [];
}

abbrev test_vm : VmContext
test_vm = record { time = 1; chain_id = 1; coinbase = 3 ∷ []; block_number = 7 }

abbrev test_events : List Event
test_events = opcode 0 (push 2) 100 test_scope ∷ exit 1 false false ∷ []

captured_item-arguments_example :
    let bytes = (captured_item 0 (push 2) test_scope).arguments in
    (length bytes ≡ 2)
    × ((j : ℕ) → j < 2 → byte_or_zero bytes j ≡ byte_or_zero (97 ∷ 1 ∷ []) (0 + 1 + j))
captured_item-arguments_example = captured_item-arguments 0 2 test_scope (omega arith) (omega arith)

trace-IsComplete_example : All IsComplete (trace test_events new_state_tracer).evm_instructions
unfolding new_state_tracer
trace-IsComplete_example = trace-IsComplete test_events new_state_tracer tt

trace-IsFilled_example :
    IsFilled (captured_state 100 test_scope (capture_tx_start test_vm (2 ∷ []) new_state_tracer))
unfolding trace capture
trace-IsFilled_example =
    trace-IsFilled test_vm (2 ∷ []) test_events _ (((0, refl), omega arith), (tt, tt)) refl

-- a prover that fails from the fourth opcode on
abbrev works_below_three : ℕ → Bool
works_below_three i = ltb i 3

last_working_count-Border_example :
    Border works_below_three 5 (last_working_count works_below_three 5)
last_working_count-Border_example = last_working_count-Border works_below_three 5

works_below_three_mono : (i j : ℕ) → i ≤ j → works_below_three j ≡ true → works_below_three i ≡ true
works_below_three_mono i j h e = lt→ltb i 3 (omega (arith, ltb→lt j 3 e))

last_working_count_iff_example :
    works_below_three 2 ≡ ltb 2 (last_working_count works_below_three 5)
last_working_count_iff_example =
    last_working_count_iff works_below_three 5 works_below_three_mono 2 (omega arith)

search_run : last_working_count works_below_three 5 ≡ 3
unfolding last_working_count
search_run = refl
