-- ===== src/Compiler/Strip.antt =====
-- `toFile` (prover/compiler.go): the lines of the two targets, and what leaving EBREAK out does to a
-- run.
use erigon_risc_v_executable.Prelude.{
  ◌≡◌, refl, sym, ap₂, ◌∙◌, List, [], ◌∷◌, some, true, false, Bool-cases, Option-cases, inl, inr,
  map, All, Text, arith,
}
use erigon_risc_v_executable.Assembly.{
  has_callee, IsNamed, Mnemonic, addi, li, sw, lw, la, call, lb, sb, mv, nop, ebreak, Operand,
  Instruction,
}
use erigon_risc_v_executable.Compiler.{
  unicorn, open_vm, is_ebreak, plain_line, open_vm_line, open_vm_call, file_lines,
}
use erigon_risc_v_executable.Machine.Balance.{exec-cons, exec-stuck}
use erigon_risc_v_executable.Machine.{Machine, Linked, step, exec}

call_named :
    (os : List Operand) → has_callee call os ≡ true → (t : Text) × (open_vm_call os ≡ some t)
unfolding has_callee open_vm_call
call_named [] h = ground arith
call_named (o ∷ os) h = (_, refl)

line_named :
    (c : Mnemonic) (i : Instruction)
    → has_callee c i.operands ≡ true
    → (t : Text) × (open_vm_line c i ≡ some t)
unfolding open_vm_line
line_named addi i h = (_, refl)
line_named li i h = (_, refl)
line_named sw i h = (_, refl)
line_named lw i h = (_, refl)
line_named la i h = (_, refl)
line_named call i h = call_named i.operands h
line_named lb i h = (_, refl)
line_named sb i h = (_, refl)
line_named mv i h = (_, refl)
line_named nop i h = (_, refl)
line_named ebreak i h = (_, refl)

-- The file for the emulator has the line of each instruction, in order.
pub file_lines-unicorn : (is : List Instruction) → file_lines unicorn is ≡ some (map plain_line is)
unfolding file_lines
file_lines-unicorn [] = refl
file_lines-unicorn (i ∷ is) = rw (file_lines-unicorn is) refl

ebreak_skips :
    (l : Linked) (c : Mnemonic) (os : List Operand) (m : Machine)
    → is_ebreak c ≡ true
    → step l (record { name = c; operands = os }) m ≡ some m
unfolding step is_ebreak
ebreak_skips l ebreak os m h = refl
ebreak_skips l addi os m h = ground arith
ebreak_skips l li os m h = ground arith
ebreak_skips l sw os m h = ground arith
ebreak_skips l lw os m h = ground arith
ebreak_skips l la os m h = ground arith
ebreak_skips l call os m h = ground arith
ebreak_skips l lb os m h = ground arith
ebreak_skips l sb os m h = ground arith
ebreak_skips l mv os m h = ground arith
ebreak_skips l nop os m h = ground arith

exec-same :
    (l : Linked) (i : Instruction) (c c' : List Instruction) (m : Machine)
    → ((n : Machine) → exec l c n ≡ exec l c' n)
    → exec l (i ∷ c) m ≡ exec l (i ∷ c') m
exec-same l i c c' m h = elim (Option-cases (step l i m)) [
  | inl e ↦ exec-stuck l i c m e ∙ sym (exec-stuck l i c' m e)
  | inr (n, e) ↦ exec-cons l i c m e ∙ h n ∙ sym (exec-cons l i c' m e)
]

-- The file for OpenVM is written, without a panic, when every call names its routine; its lines are
-- those of a list of instructions with no EBREAK in it that, from every machine, runs as the whole
-- list does.
pub file_lines-open_vm :
    (l : Linked) (is : List Instruction)
    → All IsNamed is
    → (shown : List Instruction) × (lines : List Text) × (file_lines open_vm is ≡ some lines)
      × (map (λ i. open_vm_line i.name i) shown ≡ map some lines)
      × (All (λ i. is_ebreak i.name ≡ false) shown)
      × ((m : Machine) → exec l shown m ≡ exec l is m)
unfolding file_lines
file_lines-open_vm l [] named = ([], [], refl, refl, tt, λ m. refl)
file_lines-open_vm l (i ∷ is) (this, named) =
    let (shown, lines, written, same, stripped, runs) = file_lines-open_vm l is named in
    elim (Bool-cases (is_ebreak i.name)) [
      | inl e ↦ (
        shown,
        lines,
        rw e written,
        same,
        stripped,
        λ m. runs m ∙ sym (exec-cons l i is m (ebreak_skips l i.name i.operands m e)),
      )
      | inr e ↦
          let (t, line) = line_named i.name i this in
          (
            i ∷ shown,
            t ∷ lines,
            rw (e, line, written) refl,
            ap₂ ◌∷◌ line same,
            (e, stripped),
            λ m. exec-same l i shown is m runs,
          )
    ]
