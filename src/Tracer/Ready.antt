-- ===== src/Tracer/Ready.antt =====
-- What the tracer of tracer/tracer.go hands over is what the transpiler needs of it: the bytes of
-- every push, and a state whose fields are set.
use erigon_risc_v_executable.Prelude.{
  ℕ, zero, suc, ◌+◌, ◌%◌, ◌^◌, ◌≤◌, ◌<◌, ◌≡◌, refl, sym, ap, subst, ◌∙◌, List, [], ◌∷◌, none, some,
  Bool, true, ◌||◌, ltb, leb, get_elem?, length, All, All-append, arith, Bool-cases, inl, inr,
}
use erigon_risc_v_executable.Opcode.{Opcode, push}
use erigon_risc_v_executable.Trace.{EvmExecutionState, EvmInstructionMetadata}
use erigon_risc_v_executable.Emit.Copy.Window.{byte_or_zero}
use erigon_risc_v_executable.Tracer.{
  StateTracer, VmContext, OpContext, new_state_tracer, capture_tx_start, captured_item,
  captured_state, immediate_size, immediate_bytes, Event, tx_start, exit, opcode, silent, capture,
  trace,
}
use erigon_risc_v_executable.Transpiler.Arity.{IsFilled}

length-immediate_bytes :
    (left i pc : ℕ) (code : List ℕ) → length (immediate_bytes left i pc code) ≡ left
unfolding immediate_bytes
length-immediate_bytes zero i pc code = refl
length-immediate_bytes (suc left) i pc code = ap suc (length-immediate_bytes left (i + 1) pc code)

byte_or_zero-get_elem? :
    (xs : List ℕ) (i : ℕ) → byte_or_zero xs i ≡ elim (get_elem? xs i) [ none ↦ 0 | some b ↦ b ]
byte_or_zero-get_elem? [] i = refl
byte_or_zero-get_elem? (x ∷ xs) zero = refl
byte_or_zero-get_elem? (x ∷ xs) (suc i) = byte_or_zero-get_elem? xs i

byte_or_zero-immediate_bytes :
    (left i pc j : ℕ) (code : List ℕ)
    → j < left
    → pc + 1 + i + left ≤ 2 ^ 64
    → byte_or_zero (immediate_bytes left i pc code) j ≡ byte_or_zero code (pc + 1 + i + j)
unfolding immediate_bytes
byte_or_zero-immediate_bytes zero i pc j code h fits = absurd (omega arith)
byte_or_zero-immediate_bytes (suc left) i pc zero code h fits =
    let here : (pc + 1 + i) % 2 ^ 64 ≡ pc + 1 + i + zero = omega (arith, fits) in
    sym (byte_or_zero-get_elem? code ((pc + 1 + i) % 2 ^ 64)) ∙ ap (byte_or_zero code) here
byte_or_zero-immediate_bytes (suc left) i pc (suc j) code h fits =
    byte_or_zero-immediate_bytes left (i + 1) pc j code (omega arith) (omega arith)
    ∙ ap (byte_or_zero code) (omega arith)

immediate_size-push : (n : ℕ) → n ≤ 32 → immediate_size (push n) ≡ n
unfolding immediate_size
immediate_size-push n h = ground arith

-- For PUSHn, n at most 32, the tracer records n bytes: those of the code behind the opcode, and
-- zeros past the end of the code, as long as the counter plus 33 is below 2 ^ 64.
pub captured_item-arguments :
    (pc n : ℕ) (scope : OpContext)
    → n ≤ 32
    → pc + 33 < 2 ^ 64
    → let bytes = (captured_item pc (push n) scope).arguments in
      (length bytes ≡ n)
      × ((j : ℕ) → j < n → byte_or_zero bytes j ≡ byte_or_zero scope.code (pc + 1 + j))
unfolding captured_item
captured_item-arguments pc n scope h fits = rw (immediate_size-push n h) (
  length-immediate_bytes n 0 pc scope.code,
  λ j below.
      byte_or_zero-immediate_bytes n 0 pc j scope.code below (omega arith)
      ∙ ap (byte_or_zero scope.code) (omega arith),
)

-- The bytes that the transpiler reads of a push, at most 32, are there.
unfoldable pub has_immediates : Opcode → List ℕ → Bool
has_immediates (push n) bytes = leb 33 n || leb n (length bytes)
has_immediates _ bytes = true

abbrev pub IsComplete : EvmInstructionMetadata → Type 0
IsComplete item = has_immediates item.opcode item.arguments ≡ true

has_immediates-immediate_size :
    (op : Opcode) (bytes : List ℕ)
    → length bytes ≡ immediate_size op
    → has_immediates op bytes ≡ true
unfolding has_immediates immediate_size
has_immediates-immediate_size (push n) bytes h = ground arith
has_immediates-immediate_size op bytes h = refl

capture-IsComplete :
    (e : Event) (t : StateTracer)
    → All IsComplete t.evm_instructions
    → All IsComplete (capture e t).evm_instructions
unfolding capture has_immediates
capture-IsComplete (tx_start vm from) t h = h
capture-IsComplete (exit depth failed reverted) t h = elim (Bool-cases (ltb 0 depth)) [
  | inl e ↦ rw e (All-append IsComplete t.evm_instructions _ h (refl, tt))
  | inr e ↦ rw e h
]
capture-IsComplete (opcode pc op gas scope) t h = All-append IsComplete t.evm_instructions _ h (
  has_immediates-immediate_size op _ (length-immediate_bytes (immediate_size op) 0 pc scope.code),
  tt,
)
capture-IsComplete silent t h = h

-- Whatever the hooks are called with, every push that the tracer records has the bytes that the
-- transpiler reads of it, when those recorded before had them.
pub trace-IsComplete :
    (es : List Event) (t : StateTracer)
    → All IsComplete t.evm_instructions
    → All IsComplete (trace es t).evm_instructions
unfolding trace
trace-IsComplete [] t h = h
trace-IsComplete (e ∷ es) t h = trace-IsComplete es (capture e t) (capture-IsComplete e t h)

-- A transaction has started: the block's fields are set.
record IsStarted (t : StateTracer) : Type 0 where
  chain : (v : ℕ) × (t.chain_id ≡ some v)
  block : (v : ℕ) × (t.block_number ≡ some v)
  filled : (st : EvmExecutionState) → t.execution_state ≡ some st → IsFilled st

-- The call value is set and the call data fits where an opcode is captured.
abbrev pub IsCallable : Event → Type 0
IsCallable (opcode pc op gas scope) =
    ((v : ℕ) × (scope.call_value ≡ some v)) × (length scope.call_input + 32 < 2 ^ 64)
IsCallable _ = Unit

captured_state-IsFilled :
    (gas : ℕ) (scope : OpContext) (t : StateTracer)
    → (v : ℕ) × (scope.call_value ≡ some v)
    → length scope.call_input + 32 < 2 ^ 64
    → (v : ℕ) × (t.chain_id ≡ some v)
    → (v : ℕ) × (t.block_number ≡ some v)
    → IsFilled (captured_state gas scope t)
unfolding captured_state
captured_state-IsFilled gas scope t value fits chain block = record {
  has_call_value = value;
  has_gas = (gas, refl);
  has_timestamp = (t.block_time, refl);
  has_chain_id = chain;
  has_block_number = block;
  call_data_fits = fits;
}

capture-IsStarted :
    (e : Event) (t : StateTracer) → IsCallable e → IsStarted t → IsStarted (capture e t)
unfolding capture
capture-IsStarted (tx_start vm from) t c h = record {
  chain = (vm.chain_id, refl);
  block = (vm.block_number, refl);
  filled = h.filled;
}
capture-IsStarted (exit depth failed reverted) t c h = elim (Bool-cases (ltb 0 depth)) [
  | inl e ↦ rw e (record { chain = h.chain; block = h.block; filled = h.filled })
  | inr e ↦ rw e h
]
capture-IsStarted (opcode pc op gas scope) t c h = record {
  chain = h.chain;
  block = h.block;
  filled = λ st e.
      let same : captured_state gas scope t ≡ st = cc in
      subst (λ s. IsFilled s) same (captured_state-IsFilled gas scope t c.0 c.1 h.chain h.block);
}
capture-IsStarted silent t c h = h

trace-IsStarted :
    (es : List Event) (t : StateTracer) → All IsCallable es → IsStarted t → IsStarted (trace es t)
unfolding trace
trace-IsStarted [] t c h = h
trace-IsStarted (e ∷ es) t (c, cs) h =
    trace-IsStarted es (capture e t) cs (capture-IsStarted e t c h)

-- After the start of a transaction, whatever hooks are called then, the state that a new tracer
-- hands over has every field set that the transpiler reads, as long as every captured opcode ran
-- with a call value and with call data of less than 2 ^ 64 - 32 bytes.
pub trace-IsFilled :
    (vm : VmContext) (from : List ℕ) (es : List Event) (st : EvmExecutionState)
    → All IsCallable es
    → (trace (tx_start vm from ∷ es) new_state_tracer).execution_state ≡ some st
    → IsFilled st
unfolding trace new_state_tracer capture
trace-IsFilled vm from es st c e =
    (trace-IsStarted es (capture_tx_start vm from new_state_tracer) c (record {
      chain = (vm.chain_id, refl);
      block = (vm.block_number, refl);
      filled = λ st h. ground arith;
    })).filled
      st e
