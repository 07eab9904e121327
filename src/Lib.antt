-- ===== src/Lib.antt =====
-- Models of the brutal operating system: the containers of its libraries, the managers, scheduler and
-- system calls of its kernel, its locks, its memory functions and streams, deflate, its strings,
-- UTF-8, checksums and file name patterns, and its virtual machine.
--
-- Parts and files:
-- Ds: sources/libs/brutal-ds. Bitmaps (Ds/Bits, of bits.h and bits.c), ring buffers (Ds/Ring),
--   vectors (Ds/Vec), tables of slots (Ds/Slot) and the hash map (Ds/Map, of map.c), whose buckets
--   are vectors of nodes and whose hash is that of Hash/Fnv. A container is a record with the fields of
--   the C structure, and each function is a definition of the same name without its `_impl`.
-- Kernel/Pmm: sources/kernel/pmm.c. The physical memory manager marks pages in a bitmap of
--   Ds/Bits; Kernel/Pmm/Boot builds that bitmap from the memory map of the loader.
-- Kernel/Object: sources/kernel/object.c. The reference counts of all objects, as functions
--   from addresses, and the table of all objects.
-- Kernel/Domain: sources/kernel/domain.c. A table of handles, over Ds/Slot and Kernel/Object.
-- Kernel/Parcel and Kernel/Channel: sources/kernel/parcel.c and channel.c. A parcel is a
--   message with references to the objects of its handles, which a domain looks up; a channel is
--   a ring of Ds/Ring of parcels.
-- Kernel/Event: sources/kernel/event.c. The bindings of tasks to interrupts; a trigger sends
--   to the channels of the tasks. Kernel/Abi has the results and types of
--   sources/libs/bal/abi/types.h.
-- Kernel/Sched: sources/kernel/sched.c. The tasks, the processors and the
--   queue, and in Kernel/Sched/Cycle ticks, blocking, stops and ends of tasks; the functions of
--   blocked tasks are call backs of the scheduler, which keeps the rest of the kernel as its world.
-- Kernel/Memory and Kernel/Space: sources/kernel/memory.c, space.c and x86_64/heap.c. A space takes
--   addresses from the ranges of Ds/RangeAlloc (sources/libs/brutal-ds/range.c) and maps memory
--   objects there. Kernel/Vmm: of sources/kernel/x86_64/vmm.c the assertions and panics of mapping
--   and unmapping pages, over the calls that a space made.
-- Kernel/System and Kernel/Syscalls: sources/kernel/task.c and syscalls.c. The state of the whole
--   kernel is the state of the scheduler with the domains, spaces, memory objects, channels and
--   bindings as its world. Kernel/Syscalls has the calls that map, its children those that create
--   objects (Create) and the others (Calls).
-- Text/Utf8 and Text/Str: sources/libs/brutal-text/utf8.c and str.c. Hash/Adler32, Hash/Crc32 and
--   Hash/Fnv: sources/libs/brutal-hash/adler32.c, crc32.c and fnv.c.
-- Sync: sources/libs/brutal-sync and sources/kernel/cpu.c. Sync/Lock and Sync/RwLock are the calls on
--   one processor, with the depth at which Sync/Cpu keeps its interrupts off; Sync/Threads has the
--   reader and writer lock as steps of any number of threads, one access at a time.
-- Mem: sources/libs/brutal-mem. Io: sources/libs/brutal-io. Streams over an array (Io/Mem), bits from
--   and to a stream (Io/RBits, Io/WBits), the sliding window (Io/Window) and the bounded copy
--   (Io/Copy), with results that carry an error (Io/Res).
-- Codec: sources/libs/codec-deflate. Codec/Deflate compresses, Codec/Huff builds and reads codes,
--   Codec/Inflate decompresses, and Codec/Stored is the format of uncompressed blocks.
-- Parse/Scan and Parse/Glob: sources/libs/brutal-parse/scan.c, as far as the patterns of
--   sources/libs/brutal-glob/glob.c use it, and those patterns.
-- Bvm: sources/libs/bvm. Values (Bvm/Val), integers of 64 bits (Bvm/Int64), functions
--   (Bvm/Func), objects (Bvm/Obj), the stack and the globals (Bvm/Local), and the instructions
--   (Bvm/Eval).
-- Base has what they share; the Tests modules run the theorems at concrete inputs.
--
-- How the code is modelled: a function takes the state and returns the new one. `none` is a fault:
-- a read or write outside an array, a failed assertion, a panic, or an operation that C leaves
-- undefined. A machine word is a natural number, with its wrap-around written out where it can
-- happen; counters of containers stay below their capacities. Outside of Sync a lock makes the
-- operation that it guards one step. Loops are recursions on the number of rounds that are left,
-- which bounds them as the condition of the loop does. The scheduler dispatches as many rounds as
-- there are tasks in the queue, and one more; the loop of `range_alloc_used` has two rounds for
-- each range and two more, as a range that was cut off is not cut again; a pattern is matched in
-- at most as many rounds as it has bytes, and one more. A copy has at most one round for each
-- byte, and compression one round more than there are bytes. The loops over the symbols and the
-- blocks of a compressed stream run on fuel, and so does a processor that waits for a lock. Two
-- loops of the virtual machine run on fuel: the walks up the prototypes, which the instructions
-- give one more than the number of objects, and the loop of `bvm_call`, which a program need not
-- end. The tables of objects and of bindings always get the memory to grow.
--
-- Parameters: the memory that the allocator hands out and the addresses of new objects, what lies
-- in memory before the start and in an array of a function before it is written, the answers of
-- the call backs that block a task, the arithmetic of doubles, and the native functions of the
-- virtual machine.
--
-- Not modelled: the calls that block on a message, interrupts between processors, page tables and
-- contexts in the format of the hardware, the memory for page tables, the destructors that the
-- last reference starts (they are functions of their own, and a count that reaches 0 records the
-- call), drivers, drawing, the compilers, the containers of deflate, buffers and devices. The
-- order that processors see each other's writes in is that of the steps: the fences of the locks
-- have no effect in the model.
pub mod Base
pub mod Bvm
pub mod Ds
pub mod Kernel
pub mod Text
pub mod Hash
pub mod Parse
pub mod Sync
pub mod Mem
pub mod Io
pub mod Codec
