-- ===== src/Lib.antt =====
-- A model of mcp_forth: a compiler from Forth to bytecode, and the engine that runs the bytecode.
--
-- The program. `m4_compile` (compile.c) reads a source word by word and turns it into fragments of an
-- intermediate code (mcp_forth.h). A backend gives the fragments their sizes and bytes; the backend for
-- the bytecode is vm_backend.c, which writes numbers in the variable-length form of mcp_forth.c. The
-- engine (vm_engine.c) reads the same form and runs it on a data stack and a return stack.
--
-- The files.
--   Prelude: library names passed on, Boolean tests, lists, bytes, and 32-bit patterns.
--   Num: the number encoding of mcp_forth.c: m4_num_encode, m4_num_decode and what they call.
--     Size, Decode and RoundTrip hold the theorems on it.
--   Source: the parts of compile.c that read the source. Scanner is next_word and next_line; Escape the
--     escaped strings; Names the lookup of names and the table of builtin words; Literal parse_literal.
--     Escape.Meaning and Literal.Standard state what strings and numbers mean apart from the code.
--   Fragment: the opcodes, the fragments and the interface of a backend, mcp_forth.h.
--   Chores: m4_backend_fragment_get_needed_chores of mcp_forth.c. Boundary and Straight are about what the
--     chores do to the registers and the memory.
--   VmBackend: the three functions of vm_backend.c. Dump is about the bytes, Relax about the layout loop.
--   X86Backend: x86-32_backend.c, the sizes and what can be encoded; Dump the bytes. Ready is what it asks of
--     a program; Sizes and Total are about the bytes' number, Relax about the layout loop, Move, Jumps and
--     Reach about where the jumps go.
--   Esp32s3Backend: esp32s3_backend.c, its instructions; Auto the ones whose form depends on an operand, with
--     the pool of literals (m4_compiler_literal), Branch the branches, Flags the sizes and what can be encoded,
--     Dump the bytes. Lengths, Literals, Moves, Adds, Instructions and Fragments are about the bytes' number.
--   Compiler: m4_compile up to the layout. State holds its locals as a record, with one list for each
--     array; Definitions, ControlFlow and Strings hold one function for each intrinsic word; Source the
--     loop over the words; Layout the loop that solves lengths and positions, with Rounds about its end for any backend that
--     keeps a few laws, which the two backends fill, and Positions about its result; Binary what is written in
--     front of the code. Sound holds the compiler's invariant: in its children, Checks, Rules and Steps
--     are about the helpers, Flow, Names, Lookup and Words about the words, Program about a source.
--   Vm: vm_engine.c. Vm holds the context, the memory and a small state monad; Arith the operators of C;
--     Words the builtin words; Step the opcodes, and run_inner. Keeps and Bounds are about an invariant
--     of every instruction, Effects about the builtin words, Calls about calls and loops, Fetch and Jumps
--     about the engine and the backend together.
--   Header: m4_unpack_binary_header of mcp_forth.c. Run, Parts, Pieces and Memory hold the lemmas, RoundTrip
--     and Errors the theorems, against what Compiler.Binary writes.
--   Globals: m4_global_* of mcp_forth.c and global.h, the slots of the callbacks; Slots their use.
-- In each, a module Tests holds runs and instances of the theorems.
--
-- Numbers. An `int` is its 32-bit pattern, a natural number below 2 ^ 32; arithmetic wraps, as with -fwrapv. A byte is a
-- natural number. Pointers are 32-bit numbers, as on the machines that the program is for. In the
-- compiler the counts of array elements are natural numbers without a bound.
--
-- What C leaves undefined (an index out of bounds, a failed assertion, a bad address) is a value of its
-- own: `none`, `undefined` or `fault`.
--
-- Loops. The loops over a text or an array recur on it, or on fuel of one more than its bytes, since
-- every round takes a byte. The loop of the number encoder has fuel for the five groups of a 32-bit
-- number. The layout loop has fuel of four times the number of fragments and one more: each round but the
-- last relaxes some fragment, and four relaxations are enough for any jump. `run_inner` may run for
-- ever; its fuel is the number of instructions, and a program that is still running is a result.
--
-- Parameters. The runtime words that a program is linked with are functions of the data stack and the
-- memory. The memory is a function from addresses to bytes, undefined where an access faults.
--
-- What lies above the two stacks is not in the engine's state: a pick with a negative index, and an exit
-- with the base above the stack, read it. It is an argument of the engine, Slots, which may be another one
-- in every round of `run_inner`, and a cell in it may be one that cannot be read.
--
-- The arrays that x86_32_backend_generator.py and esp32s3_backend_generator.py write (the code of the builtin words, their table, and the
-- code of the chores) are a record; what the generator ensures of them is IsGenerated. The reader of the
-- header takes the arrays of runtime words, with a value of any type for each pair.
--
-- Two builds. The engine is modelled in the build without threads, the slots of the callbacks in the one
-- with threads and thread-local storage, which has all their cases.
--
-- The backend for the ESP32-S3 adds to the compiler's array of literals while it counts and while it
-- writes: its functions take the array and give it back. It aligns by the address that it writes to,
-- which is an argument.
--
-- Not modelled: m4_vm_engine_run and the callbacks from C, the creation of threads, the engines for machine
-- code, the ELF writers, the runtime words, the command line tools, and the generators of headers.
pub mod Prelude
pub mod Num
pub mod Source
pub mod Fragment
pub mod VmBackend
pub mod Compiler
pub mod Vm
pub mod Chores
pub mod X86Backend
pub mod Header
pub mod Globals
pub mod Esp32s3Backend
