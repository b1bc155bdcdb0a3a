-- ===== src/Lib.antt =====
-- fuzzuf-cc: the run-time parts that the compiler wrapper links into a program under test, the clients
-- of the fork server, and sample programs under test.
--
-- There are three run-time parts, written in C, which do not call each other and meet in the
-- process under test.
--   * The fork server (features/forkserver/forkserver.c) takes over the process before `main`,
--     talks with the fuzzer over two pipes and forks the process once per execution.
--   * The IJON run time (features/ijon/ijon-llvm-rt.o.c) attaches a segment of shared memory and
--     keeps in it the counters and maxima that the annotations of the program report.
--   * The coverage run time (features/bitmap/bitmap-llvm-rt.o.c) attaches the coverage map.
-- On the other side of the two pipes stands a client: the executor (src/utils/executor.cpp), which
-- starts the server, writes each test case to a file of the shared memory, asks for an execution and
-- collects output, errors and response; or the benchmark (features/forkserver/benchmark_client.cc),
-- which times executions.
-- The programs under put/ are to be run on them. Exifutil (put/exifutil/exifutil.c) walks
-- over the segments of a JPEG file and hands the APP1 segments to a handler that reads and prints
-- the EXIF directories.
--
-- Files.
--   * Prelude passes on the library names; Prelude/Tests has the Boolean tests, Prelude/Lists the
--     list lemmas, Prelude/Effect the runs: a function of C is a function of its state, and a run
--     returns, exits, is killed, aborts, is undefined (`fault`) or uses up its fuel.
--   * Bytes is the layout of integers in memory; Bits has the laws of the bit operations.
--   * ForkServer/Types has the constants, records and messages of features/forkserver/config.h and
--     the state of the server. ForkServer/Os is the system: each answer of read, write, fork,
--     waitpid, setitimer and so on is an argument that may depend on the trace of all earlier calls.
--     ForkServer/Signals is PUTTimeoutHandler and when a signal comes. ForkServer/Handshake is
--     WaitClientAttach, TellClientServerHasStarted and DoHandshake; ForkServer/Pipe is Recv,
--     WaitForAPICall and RecvU64; ForkServer/Execute is AttachStdxxxFiles and ExecutePUT;
--     ForkServer/Serve is StartForkServer. Below them stand the proofs, and ForkServer/Protocol
--     has the specification of a session. ForkServer/Tests has systems to run on.
--   * Executor/Types has the members of Pipe and Executor (include/fuzzuf_cc/utils/executor.hpp) and
--     the system calls of the client, Executor/Effect what a run of C++ comes to (done, an exception,
--     terminate or abort, another program), and Executor/Host the system, whose answers may depend
--     on the trace of all earlier calls. Executor/Pipe has the member functions of Pipe,
--     Executor/Start the constructor and the destructor of Executor with OpenStdin, CloseStdin and
--     CallForkServerAPI, and Executor/Execute operator() with WriteTestcaseToStdin. Executor/Stream
--     says what one execution sends to the client, Executor/Steps, Executor/Rounds and
--     Executor/Collect follow the loop of operator(), Executor/Operator a call, Executor/Session
--     calls one after the other, Executor/Connect the constructor, Executor/Balance
--     follows each descriptor from the constructor to the destructor, and Executor/Served puts client
--     and server together. Executor/Tests has a system to run on.
--   * Bench/Calls, Bench/Setup and Bench/Measure are features/forkserver/benchmark_client.cc: the
--     calls, what comes before the executions, and ExecutePUT, GetN and `main`. Bench/Rounds,
--     Bench/Session and Bench/Whole have the proofs, and Bench/Tests a system.
--   * Ijon/State has the globals of the IJON run time over the bytes of its arrays and of the
--     segment, Ijon/Memory the loads and stores, Ijon/Feedback the calls from ijon_xor_state to
--     ijon_disable_feedback, Ijon/Hash and Ijon/Distance the hashes and distances, and Ijon/Shm
--     __ijon_map_shm, __ijon_manual_init and __ijon_auto_init. Ijon/Feedback/View says what the
--     calls mean, and Ijon/Tests has a platform and calls.
--   * Bitmap is __bitmap_map_shm, __bitmap_manual_init and __bitmap_auto_init, with their theorems
--     in Bitmap/Start and a platform in Bitmap/Tests.
--   * Exif/Types has the constants and structs of put/exifutil/exifutil.c and the state of a run:
--     the file, the buffer of the segment, the blocks on the heap, the number of open files, and
--     what was printed. Exif/File is fread, fseek and feof, Exif/Heap malloc, free and the accesses through
--     pointers. Exif/Endian is be16_to_cpu to be64_to_cpu, Exif/Entry jpeg_exif_read_entry,
--     Exif/Show jpeg_exif_show_entry, Exif/Ifd jpeg_exif_read_ifd, Exif/App1 jpeg_custom_app1,
--     Exif/Walk the default handlers, jpeg_handlers_new and jpeg_walk, and Exif/Main the rest. The
--     files named Balance follow the blocks through the functions; Exif/Tests has files and systems
--     to run on. To free an address that is not allocated ends a run as killed.
--
-- Conventions and bounds.
--   * Numbers are natural numbers, and the wrap-around of `u8`, `uint32_t` and `uint64_t` is written
--     out. The machine is x86-64 Linux: the low byte first, `char` signed, 32-bit `int`.
--   * The loops of the fork server run on fuel: that of Recv bounds its reads, that of the wait
--     loop its waits, and that of StartForkServer its commands. The theorems say how much is enough
--     for the pipe and the children at hand. The loop of operator() of the executor has a unit of
--     fuel for each epoll_wait; more than the bytes that arrive and the interruptions is enough. The
--     loops of jpeg_walk and jpeg_seghandler_skip_sos run on fuel, for which one more than the length
--     of the file is enough, and so do the directories of jpeg_exif_read_ifd, whose chain may have no
--     end. The other loops end with their data.
--   * A signal comes only before a read, around waitpid and in the setting of the timer, where the
--     code can meet one. errno is part of the answer that fails.
--   * An access outside its array or segment, a division by 0, an overflow of `int` and the use
--     of a byte that was never written are `fault`.
--   * The C library and the system are arguments: strtol, strnlen, atoi, getenv, shmat, backtrace;
--     for the clients every system call, the environment and the clock; for exifutil the answers of
--     malloc, the files of fopen and the options that getopt finds.
--
-- Not modelled: logging and printing; several threads; the alignment of the maxima in the segment;
-- ijon_hashstack_manual, which is built for i386 only; the macros of features/ijon/ijon.h; the
-- other sample programs; the text that printf makes of a value, and the call of system
-- in exifutil; the text of exceptions; the LLVM passes, which are C++ on the libraries of
-- LLVM; the templates for ranges and shared memory under include/ and the tool that prints the shared
-- memory of IJON; the Python wrapper, which builds command lines.
pub mod Prelude
pub mod Bytes
pub mod Bits
pub mod ForkServer
pub mod Ijon
pub mod Bitmap
pub mod Exif
pub mod Samples
pub mod Executor
pub mod Bench
