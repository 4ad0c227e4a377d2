-- ===== src/Lib.antt =====
-- The SKL virtual processor of the Oberon system: a model of the emulator in `loader/`, which runs
-- the object code that the Oberon compiler makes, and theorems on it.
--
-- The emulator fetches a word at the program counter, decodes it to an object of a C++ struct,
-- keeps the object in a cache indexed by address, and calls its virtual method `interpret`, which
-- reads and writes the processor's registers and the Oberon memory. An error is a trap: the
-- processor's control registers tell what happened and control goes to a handler.
--
-- The files, and the code that each is about:
-- - Prelude: shared names, Boolean tests, integers, binary digits and machine words. An `int32` is a
--   number below 2^32, read by `int32`; every wrap-around is written out.
-- - Machine: the state (`cpu_t`, `memory_t` and the block of host memory of `loader/skl.h`), the
--   accessors of registers, the traps of `loader/skl.cpp`, and the access to memory. A function of
--   the emulator is a function from a machine to an outcome: it returns with a machine, or the
--   program ends in `dialog::fatal`, a failed assertion or an operation that C++ leaves undefined.
-- - Shift, Flags, O3, Ieee: the shifts of `loader/skl.h`, the flags of `loader/skl_flags.h` and
--   `loader/generic/skl_flags_alu.h`, DIV and MOD of `loader/o3.h`, and the floating point of the
--   host, which is a parameter: a record of operations on bit patterns.
-- - Instruction: one module for each `loader/skl_*.cpp` that implements a class of instructions, with
--   its structs as a data type or a record, `interpret` as `interpret_…` and the decoder as `op_…`.
--   GenReg, IntReg, FpReg and Cond compute on registers; Jump has the jumps and calls; System has
--   the control and system registers and the run-time checks; RegMem, BitTest and Stack access the
--   memory; Vmsvc calls a service of the virtual machine, which is a parameter.
-- - Decode: `classof`, `fetch_instruction` and `fetch_and_cache_instruction` of `loader/skl.cpp`.
-- - Execute: the cache of `loader/skl_instruction.cpp` and the loop `execute` of `loader/skl.cpp`.
--   The loop does not end, so it is `rounds n` for its first `n` rounds; nothing is cut short by `n`.
-- - Heap: the allocator of `loader/heap.cpp` and the conversions of pointers of `loader/heap.h`, with
--   which the loader lays out the memory. Heap/Arrays allocates modules and arrays, Heap/Make makes
--   the heap, and Heap/Walk is the loop of `internal_dump`. The heap is the block of a machine and two
--   pointers; Heap/Laid relates it to a list of blocks.
-- - Objio: the reader of object files of `disasm/objio.cpp`. A file is the list of the bytes left in
--   it; a reader returns with the rest of the file and the table of strings, or the program ends.
-- - O3 and the modules below it: the loader of modules of `loader/o3.cpp`. Input, Header and TypeBlocks
--   read the object file as Objio does; Layout has the structures of `loader/o3.h` at their offsets in
--   the memory; Loader has the state, which is the machine, the heap, the file and the variables of
--   the C++ file; Modules is the list of modules, Descriptors and TdFixups the type descriptors of
--   Kernel, Allocations, Segments, Blocks and Uses what fills a module, and Load the whole.
-- - Fileutils: the search for a file of `loader/fileutils.cpp`, with the files of the host as a
--   parameter.
-- - Test: sample values, and each theorem with hypotheses at them.
--
-- A module below one of these, such as Instruction/Stack/Frame, holds theorems on it and is named
-- for what they are about.
--
-- Bounds: a register number is a field of five bits. The only other count is that of `strlen` in
-- CMPS, which is cut at the end of the host block, where the read is undefined. The walk over the
-- heap has one unit of fuel for each paragraph of memory and one more, and every block has a paragraph
-- at least. A loop over the modules has one for each byte of the host block and one more, and every
-- module has an address of its own; a loop that ends at a mark in the object file has one for each
-- byte that is left and one more, in Objio two more, and a round reads a byte while there is one. A
-- loop that the end of the file does not stop runs out of fuel in Objio and ends as `endless`. A shift
-- of an `int` wraps, as compilers do it; a count of 32 or more is undefined.
--
-- Not modelled: the pages that the host gives to the heap, the printing of modules, the services of
-- the virtual machine, the start of the program, traces and dumps, the assembly that computes flags
-- on some processors, and the output of the disassembler, which do input and output on the host, are
-- apart from the processor, or are not translated yet. Where an object file gives a negative number
-- of elements, the model of the loader stops.
pub mod Prelude
pub mod Machine
pub mod Shift
pub mod Flags
pub mod O3
pub mod Ieee
pub mod Instruction
pub mod Decode
pub mod Execute
pub mod Heap
pub mod Objio
pub mod Fileutils
pub mod Test
