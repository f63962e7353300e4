-- ===== src/Tests/Reads.antt =====
-- The theorem on the runner's reading of the stack, two slots below the top.
use erigon_risc_v_executable.Prelude.{◌-◌, ◌≡◌, refl, [], some, map, arith}
use erigon_risc_v_executable.Assembly.{sp}
use erigon_risc_v_executable.Machine.{Machine, set_reg}
use erigon_risc_v_executable.Machine.Stack.{wide_stack}
use erigon_risc_v_executable.Runner.{stack_top, print_stack_state}
use erigon_risc_v_executable.Runner.Execute.{
  stack_addr, mem_size, initial_stack_top, initial_regs, mapped,
}
use erigon_risc_v_executable.Runner.Decode.{slot_value, reverse_onto, print_stack_state-reads}
use erigon_risc_v_executable.Tests.{test_deps, test_deps-IsDeps, test_memory-lt}

-- the registers of the runner, after two pushes
abbrev pushed_machine : Machine
pushed_machine = record { regs = set_reg sp (initial_stack_top - 64) initial_regs; memory = λ q. 7 }

print_stack_state-reads_example :
    print_stack_state test_deps mapped stack_addr mem_size pushed_machine
    ≡ some (reverse_onto (map slot_value (wide_stack (λ q. 7) (initial_stack_top - 64) 2)) [])
unfolding stack_top initial_regs
print_stack_state-reads_example =
    print_stack_state-reads test_deps 2 pushed_machine test_deps-IsDeps test_memory-lt (omega arith)
      refl (omega arith)
