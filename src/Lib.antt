-- ===== src/Lib.antt =====
-- A verification library for the transpiler of EVM traces to RISC-V.
--
-- The program traces EVM transactions, turns each executed opcode into RISC-V instructions, writes
-- them as an assembly file with a data section, and runs or proves that file. The library models the
-- part that does the translation.
--
--   Assembly            prover/compiler.go: Instruction, DataVariable, AssemblyFile. An instruction's
--                       name and operands are data here; operand_text gives the texts.
--   Opcode, Trace       vm.OpCode, and the records of tracer/tracer.go that the transpiler reads.
--   Deps                what is taken from holiman/uint256 and Erigon: a record of functions, and the
--                       documented behaviour of them as a record of laws.
--   Sections            transpiler/transpiler.go: DataSection, StorageSection (Add, Iter, Store, Load).
--   Emit                the methods of Transpiler that return fixed runs of instructions (pushOpcode,
--                       DupOpcode, SwapOpcode, popStack, the calls of routines, mcopyCall, the saving
--                       and restoring of frames, loadFromDataSection); Emit.Copy: calldataloadCall,
--                       codecopyCall and returndatacopyCall.
--   Transpiler          the record Transpiler, its constructors, resets and ToAssembly.
--   Transpiler.Effects  a monad of Transpiler states with errors and panics, storeDebugInfo,
--                       hostOptimizedOpcode, resultFromTraceCall.
--   Transpiler.Switch   the switch of AddInstructionWithResult, in five functions each of which takes
--                       the opcodes of its lines and leaves the others to the next.
--   Transpiler.Step     AddInstructionWithResult, AddInstruction and ProcessExecution.
--   Transpiler.Mappings what each method does to the debug mappings.
--   Machine             not code of the repository: registers, memory and the RV32 instructions that
--                       the transpiler emits, as the RISC-V manual describes them, against which the
--                       emitted code is read. Machine.Stack lays the EVM's stack out in the memory as
--                       prover/unicorn_runner.go reads it.
--   Compiler            prover/compiler.go: the texts of the data section and of the instructions for
--                       the emulator and for OpenVM (generateDataSection, toFile, toDebugFile,
--                       ToToolChainCompatibleAssembly), the embedded lib.asm a parameter.
--   Tracer              tracer/tracer.go, StateTracer: the hooks (CaptureTxStart, CaptureExit,
--                       CaptureState) as functions on its state, and a run of the virtual machine as
--                       the sequence of its calls of them.
--   Tracer.Simple       tracer/tracer.go, SimpleTracer, and transpiler/test_runner.go, TestRunner: a
--                       transaction on a virtual machine that is a parameter.
--   Commands            cmd/tx-prove/main.go, the callback that proves a traced transaction, and
--                       cmd/evm-prove/main.go.
--   MockState           tracer/mock_state_db.go: balances, storage, code and nonces.
--   Runner              prover/unicorn_runner.go: printStackState; Runner.Execute: Execute, its hook, its
--                       error stages and loadElfSections, with the emulator and the ELF reader as
--                       parameters.
--   Prover              prover/prover.go: Cli.Execute, setupWorkspace, SetupExecution, Prove, StarkProve,
--                       TestRun and VerifyFromResults. A method gets the list of the calls of the
--                       system so far and hands it on with its own calls in front; the system, a
--                       record of functions of that list, answers each call.
--   BlockProver         cmd/block-prove/main.go, processBlockAsUnit: the choice of the jobs, the
--                       goroutines that trace them as a step relation in which the scheduler picks who
--                       moves, the loop that transpiles the traces into one program, and
--                       (BlockProver.Handler) the assembly, the proof and the result file.
--   Debugger            cmd/debug-transpiler/main.go: buildAssemblyUpTo and the binary search, with the
--                       prover's verdict a parameter.
--   Tests               concrete inputs.
--
-- A panic of Go (an index out of range, a nil pointer) is an outcome of its own and ends the run; an
-- error comes back with the state at that point. Loops over slices are recursion on the slice, loops
-- over counters recursion on the rounds left; only the binary search runs on fuel, the number of
-- opcodes. Numbers of uint256 are natural
-- numbers, sums in uint64 and words of the machine are written modulo 2 ^ 64 and 2 ^ 32, `int32` of a
-- number is its low word in two's complement. Pointers to values are the values, since the program
-- never changes a value that it has stored.
--
-- Transpiler.Arity states what an item must hold to be translated (IsReady): the operands that its
-- opcode reads, and the result that the trace must give for the opcodes that take it from there. It
-- holds the EVM's pops and pushes for each opcode (evm_pops, evm_pushes), and where the emitted code
-- differs: extra_pops, and late_pushes for the four calls, whose result is pushed by the item that
-- marks the end of their frame. The tracer records such an item for the frame of a creation too, whose
-- own item has pushed its result already, so a creation pushes twice where the EVM does once. The
-- machine takes the addresses of labels and the effect of the routines of prover/resources/lib.asm
-- from parameters.
--
-- In BlockProver all goroutines are there from the start, each in front of the semaphore; a goroutine
-- that the source has not spawned yet is one that the scheduler does not pick. A goroutine takes six
-- steps: it acquires its slot, registers its callback, calls the API, whose lookup finds the
-- registrations of that moment, gets the callback's tracer and the error from that call, stores its
-- result and releases the slot; steps of others may come between any two of these. The API of the node
-- is a parameter that says to which registration a call hands its tracer.
--
-- Registers, addresses and the stack have 32 bits, as in the RV32 programs that the assembler and
-- OpenVM make of the instructions; prover/unicorn_runner.go starts its emulator in the 64-bit mode,
-- which the model does not follow where a sum leaves the 32 bits. A run goes through the list of
-- instructions in order, as no emitted instruction but the calls of the routines jumps, so there the
-- hook's write of the program counter at an EBREAK is the step to the next instruction.
--
-- Not modelled: Erigon's virtual machine and RPC, the proving back ends, the operating system,
-- external compilers, times, printed messages and flags, and the bodies of the routines of lib.asm.
pub mod Prelude
pub mod Assembly
pub mod Opcode
pub mod Deps
pub mod Sections
pub mod Emit
pub mod Trace
pub mod Transpiler
pub mod Machine
pub mod BlockProver
pub mod Prover
pub mod Compiler
pub mod Tracer
pub mod Runner
pub mod MockState
pub mod Debugger
pub mod Commands
pub mod Tests
