-- ===== src/Transpiler/Sound.antt =====
-- Every opcode that the switch handles (transpiler/transpiler.go), in the configuration of the
-- commands: `Switch` is right about the stack.
use erigon_risc_v_executable.Prelude.{
  String, ℕ, ◌-◌, ◌+◌, ◌≤◌, ◌≡◌, refl, List, Option, some, true, leb, ◌&&◌, length, last?, pos,
  lt→ltb, arith,
}
use erigon_risc_v_executable.Opcode.{
  Opcode, add, mul, sub, div, sdiv, mod_, smod, addmod, mulmod, exp, signextend, and, or, xor, eq,
  slt, shr, shl, gt, sgt, lt, not, byte, sar, push, dup, swap, log, jump, jumpi, pop, mstore, mload,
  jumpdest, iszero, callvalue, gas, address, balance, origin, timestamp, chainid, coinbase,
  blockhash, number, difficulty, gaslimit, selfbalance, basefee, blobhash, blobbasefee, gasprice,
  codesize, pc, msize, mstore8, extcodecopy, extcodehash, create, create2, selfdestruct,
  extcodesize, calldatasize, returndatasize, calldataload, calldatacopy, codecopy, returndatacopy,
  sstore, tstore, sload, tload, stop, return_, revert, invalid, caller, keccak256, mcopy, call,
  delegatecall, staticcall, callcode, other,
}
use erigon_risc_v_executable.Assembly.{Instruction}
use erigon_risc_v_executable.Deps.{Deps}
use erigon_risc_v_executable.Trace.{EvmExecutionState, EvmInstructionMetadata}
use erigon_risc_v_executable.Emit.{
  push_opcode, add256_call, mul256_call, sub256_call, div256_call, and256_call, or256_call,
  xor256_call, not256_call, shr256_call, shl256_call, slt256_call, eq256_call, gt256_call,
  lt256_call,
}
use erigon_risc_v_executable.Machine.Balance.{
  Balanced-nop, Balanced-push_opcode, Balanced-dup_opcode, Balanced-swap_opcode,
}
use erigon_risc_v_executable.Transpiler.Effects.{
  M, pop_args, deref, ◌>>=◌, load_value, emit_result, emit, emit_host,
}
use erigon_risc_v_executable.Transpiler.Switch.{
  enter_frame, leave_frame, break_switch, returned, then_break, switch_arithmetic,
}
use erigon_risc_v_executable.Transpiler.Arity.{
  evm_pops, evm_pushes, extra_pops, late_pushes, IsFilled, HasOperands, HasResult,
}
use erigon_risc_v_executable.Transpiler.Does.{
  Does, Does-resize, Does-cancel, Does-bind, Does-pure, Does-emit, Does-load_value,
  Does-emit_result, Does-emit_host,
}
use erigon_risc_v_executable.Transpiler.Cases.{
  Does-deref, Does-enter_frame, Does-leave_frame, Does-pops, Does-mcopy_case, Does-store_case,
  Does-load_case, Does-calldataload_case, Does-push_case,
}

module _ (d : Deps) where
  Does-then_break : {a b : ℕ} (m : M (Unit {0})) → Does d m a b → Does d (then_break m) a b
  Does-then_break {a} {b} m h =
      Does-resize d (a + 0) (b + 0) (Does-bind d m _ h (λ _. Does-pure d break_switch))
        (omega arith) (omega arith)

  module _ (op : EvmInstructionMetadata) (st : EvmExecutionState) (filled : IsFilled st)
      (result_stack : Option (List ℕ)) (start : ℕ) where
    -- a case of a fixed number of pops
    pops : (n : ℕ) → Does d (then_break (emit (pop_args n))) n 0
    pops n = Does-then_break _ (Does-pops d n)

    -- a case that takes its result from the trace
    traced :
        (n : ℕ) (name : String)
        → (a : List ℕ) × (result : ℕ) × (result_stack ≡ some a) × (last? a ≡ some result)
        → Does d (then_break (emit_result d result_stack n name)) n 1
    traced n name (a, result, stack, top) =
        rw stack (Does-then_break _ (Does-emit_result d n name a top))

    -- a case that calls a routine of the library
    hosted : (original : List Instruction) (n : ℕ) → Does d (then_break (emit_host original n)) n 1
    hosted original n = Does-then_break _ (Does-emit_host d original n)

    -- a case that loads a value of the state
    value : (v : ℕ) → Does d (then_break (load_value d v)) 0 1
    value v = Does-then_break _ (Does-load_value d v)

    field :
        (o : Option ℕ) → (v : ℕ) × (o ≡ some v) → Does d (then_break (deref o >>= load_value d)) 0 1
    field o (v, e) = Does-then_break _ (Does-deref d o (load_value d) e (Does-load_value d v))

    Does-iszero : Does d (emit (push_opcode (pos 0)) >>= λ _. emit_host eq256_call 2) 1 1
    Does-iszero = Does-cancel d (
        Does-bind d _ _ (Does-emit d (λ l. Balanced-push_opcode l (pos 0)))
          (λ _. Does-emit_host d eq256_call 2))

    calls : (n : ℕ) → Does d (then_break (emit (pop_args n) >>= λ _. enter_frame)) n 0
    calls n = Does-then_break _ (
        Does-resize d (n + 0) 0 (Does-bind d _ _ (Does-pops d n) (λ _. Does-enter_frame d))
          (omega arith) refl)

    leaves : (n : ℕ) (c : Opcode) → Does d (emit (pop_args n) >>= λ _. leave_frame d start c) n 0
    leaves n c =
        Does-resize d (n + 0) 0 (Does-bind d _ _ (Does-pops d n) (λ _. Does-leave_frame d start c))
          (omega arith) refl

    in_range : (n : ℕ) → 1 ≤ n → n ≤ 16 → (leb 1 n && leb n 16) ≡ true
    in_range n lo hi = ground arith

    pub switch-Does :
        (c : Opcode)
        → HasOperands op c
        → HasResult result_stack c
        → Does d
            (switch_arithmetic d op (some st) result_stack start c)
            (evm_pops c + extra_pops c)
            (evm_pushes c - late_pushes c)
    unfolding switch_arithmetic
    switch-Does add h r = hosted add256_call 2
    switch-Does mul h r = hosted mul256_call 2
    switch-Does sub h r = hosted sub256_call 2
    switch-Does div h r = hosted div256_call 2
    switch-Does sdiv h r = traced 2 "SDIV" r
    switch-Does mod_ h r = traced 2 "MOD" r
    switch-Does smod h r = traced 2 "SMOD" r
    switch-Does addmod h r = traced 3 "ADDMOD" r
    switch-Does mulmod h r = traced 3 "MULMOD" r
    switch-Does exp h r = traced 2 "EXP" r
    switch-Does signextend h r = traced 2 "SIGNEXTEND" r
    switch-Does and h r = hosted and256_call 2
    switch-Does or h r = hosted or256_call 2
    switch-Does xor h r = hosted xor256_call 2
    switch-Does eq h r = hosted eq256_call 2
    switch-Does slt h r = hosted slt256_call 2
    switch-Does shr h r = hosted shr256_call 2
    switch-Does shl h r = hosted shl256_call 2
    switch-Does gt h r = hosted gt256_call 2
    switch-Does sgt h r = traced 2 "SGT" r
    switch-Does lt h r = hosted lt256_call 2
    switch-Does not h r = hosted not256_call 1
    switch-Does byte h r = traced 2 "BYTE" r
    switch-Does sar h r = traced 2 "SAR" r
    switch-Does (push n) h r = Does-then_break _ (Does-push_case d op n h.0 h.1)
    switch-Does (dup n) h r =
        rw (in_range n h.0 h.1) (Does-then_break _ (Does-emit d (λ l. Balanced-dup_opcode l n)))
    switch-Does (swap n) h r =
        rw (in_range n h.0 h.1) (Does-then_break _ (Does-emit d (λ l. Balanced-swap_opcode l n)))
    switch-Does (log n) h r =
        rw (lt→ltb n 5 h) (Does-resize d (n + 2) 0 (pops (n + 2)) (omega arith) refl)
    switch-Does jump h r = pops 1
    switch-Does jumpi h r = pops 2
    switch-Does pop h r = pops 1
    switch-Does mstore h r = pops 2
    switch-Does mload h r = traced 1 "MLOAD" r
    switch-Does jumpdest h r = Does-then_break _ (Does-emit d (λ l. Balanced-nop l))
    switch-Does iszero h r = Does-then_break _ (Does-iszero)
    switch-Does callvalue h r = field st.call_value filled.has_call_value
    switch-Does gas h r = field st.gas filled.has_gas
    switch-Does address h r = value (d.set_bytes st.address)
    switch-Does balance h r = traced 1 "BALANCE" r
    switch-Does origin h r = value (d.set_bytes st.origin)
    switch-Does timestamp h r = field st.timestamp filled.has_timestamp
    switch-Does chainid h r = field st.chain_id filled.has_chain_id
    switch-Does coinbase h r = value (d.set_bytes st.coinbase)
    switch-Does blockhash h r = traced 1 "BLOCKHASH" r
    switch-Does number h r = field st.block_number filled.has_block_number
    switch-Does difficulty h r = traced 1 "DIFFICULTY" r
    switch-Does gaslimit h r = traced 1 "GASLIMIT" r
    switch-Does selfbalance h r = traced 0 "SELFBALANCE" r
    switch-Does basefee h r = traced 1 "BASEFEE" r
    switch-Does blobhash h r = traced 1 "BLOBHASH" r
    switch-Does blobbasefee h r = traced 0 "BLOBBASEFEE" r
    switch-Does gasprice h r = traced 0 "GASPRICE" r
    switch-Does codesize h r = value (length st.code_data)
    switch-Does pc h r = traced 0 "PC" r
    switch-Does msize h r = traced 0 "MSIZE" r
    switch-Does mstore8 h r = pops 2
    switch-Does extcodecopy h r = pops 4
    switch-Does extcodehash h r = traced 1 "EXTCODEHASH" r
    switch-Does create h r = traced 3 "CREATE" r
    switch-Does create2 h r = traced 4 "CREATE2" r
    switch-Does selfdestruct h r = pops 1
    switch-Does extcodesize h r = traced 1 "EXTCODESIZE" r
    switch-Does calldatasize h r = value (length st.call_data)
    switch-Does returndatasize h r = traced 0 "RETURNDATASIZE" r
    switch-Does calldataload h r =
        Does-then_break _ (Does-calldataload_case d op st filled.call_data_fits h)
    switch-Does calldatacopy h r = pops 3
    switch-Does codecopy h r = pops 3
    switch-Does returndatacopy h r = pops 3
    switch-Does sstore h r = Does-then_break _ (Does-store_case d op h)
    switch-Does tstore h r = Does-then_break _ (Does-store_case d op h)
    switch-Does sload h r = Does-then_break _ (Does-load_case d op h)
    switch-Does tload h r = Does-then_break _ (Does-load_case d op h)
    switch-Does stop h r = Does-pure d returned
    switch-Does return_ h r = leaves 2 return_
    switch-Does revert h r = leaves 2 revert
    switch-Does invalid h r = Does-leave_frame d start invalid
    switch-Does caller h r = value (d.set_bytes st.caller)
    switch-Does keccak256 h r = traced 2 "KECCAK256" r
    switch-Does mcopy h r = Does-then_break _ (Does-mcopy_case d op)
    switch-Does call h r = calls 7
    switch-Does delegatecall h r = calls 6
    switch-Does staticcall h r = calls 6
    switch-Does callcode h r = calls 7
    switch-Does (other n) h r = absurd h
