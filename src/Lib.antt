-- ===== src/Lib.antt =====
-- BladePSGI: a PSGI application behind a FastCGI socket, served by a group of processes.
--
-- The program is one overseer process, its children, and a segment of memory that they all share. The
-- overseer runs the loader of the application, which asks for semaphores, atomic integers and
-- auxiliary processes; then it locks the segment against further requests, forks the auxiliary
-- processes, the workers and the monitoring process, and waits in its loop for signals, which a
-- self-pipe announces, and for deaths of children. A worker serves requests until it is told to
-- finish. While no shutdown is requested, the death of any child ends the whole program.
--
-- The files, and the code that they model:
--   Base        shared names: bytes, machine words, and the monad of a member function, which returns,
--               throws, exits or aborts, with the object afterwards.
--   Shmem       src/shmem.cpp, `BPSGISharedMemory` and `BPSGIAtomicInt64`: the bytes of the segment are a
--               function of the offset, a pointer is an offset, and each member function is a function
--               of its name in snake case. `SetWorkerStatus` is from src/bladepsgi.cpp, `fetch_add` from
--               src/perl_interpreter_sea_bridge.cpp. Shmem/Requests has the histories of the loader's
--               requests; Shmem/Accesses has the accesses of running processes, each of which is atomic,
--               in any order; Shmem/Orders has what is told by their totals.
--   Semaphore   src/shmem.cpp, `BPSGISemaphore`. <semaphore.h> is a parameter, `SemLib` of
--               Shmem/PosixSem, and `SemLaws` says what its manual pages say. A loop over interrupted
--               calls is a recursion on the list of the interruptions, and has no result while it waits.
--   Shared      the objects in the segment without its bytes, as README.md promises them, and the
--               operations of running processes on the bytes: those of Shmem, Semaphore and PerlBridge.
--   MainApp     src/bladepsgi.cpp, `BPSGIMainApplication`: the object with the static variables of the
--               file, the bytes in the self-pipe, the signals sent and the lines logged. MainApp/MainLoop
--               is the loop of `Run`; MainApp/Spawn has the functions that fork, with `SetPID` of
--               src/auxiliary.cpp and the destructor of `BPSGIPerlInterpreter` of
--               src/perl_interpreter.cpp. What the operating system and Perl return are arguments.
--               MainApp/Wakeup has the interleavings of the signal handler with the loop, as steps;
--               MainApp/ChildProcess has the functions in which the children end.
--   Worker      src/worker.cpp, `BPSGIWorker`, over the segment and what callbacks do.
--   Monitoring  src/monitoring.cpp, `BPSGIMonitoring`, with `RunnerDied` as an argument of each round.
--   Process     the signal masks, handlers and titles of processes of every kind, from
--               src/bladepsgi.cpp, and the beginnings of the functions `Run`; the calls of the operating
--               system succeed. Process/Title is `SetProcessTitle`, on Linux.
--   CommandLine `main` of src/bladepsgi.cpp. getopt_long is a parameter; strtol is CommandLine/Strtol.
--   Logging     src/bladepsgi.cpp, `Log`, on the bytes that are written, and `LogPanic`; Logging/Reader has
--               a reader of the log.
--   Startup     src/bladepsgi.cpp, what `Run` sets up before it starts children: the self-pipe, the
--               mapping and the sockets. The operating system is a parameter, `UnixLib` of Startup/Unix,
--               and `UnixLaws` says what its manual pages say.
--   Run         src/bladepsgi.cpp, `Run` from the preparation to the last fork, over Startup, Shmem and
--               MainApp/Spawn.
--   Exceptions  src/exceptions.cpp, and PerlInterpreterException of src/perl_interpreter.cpp, with their
--               buffers on a heap. Elsewhere an exception is a constructor with its text.
--   PerlGlue    src/perl/bladepsgi_perl.c. What Perl does is a parameter, `PerlLib`. The references that the
--               program takes, the callbacks that it makes and the scopes that it opens are lists and a
--               number in the state.
--   PerlInterpreter
--               src/perl_interpreter.cpp, `BPSGIPerlInterpreter` and `BPSGIPerlCallbackFunction`, over the
--               glue, and `InitializePerlInterpreter` of src/bladepsgi.cpp.
--   PerlBridge  src/perl_interpreter_sea_bridge.cpp, the callbacks of the Perl module, and the text of a
--               PerlInterpreterException.
--   PerlModule  src/perl/XS.xs, with src/perl/typemap: the methods of the objects that Perl gets, which wait,
--               return, croak or let an exception through. An object is a class with an address: that of the
--               context, the place of a struct BPSGI_Semaphore, or the offset of an integer.
--   FastcgiWrapper
--               src/perl/fastcgi_wrapper_loader.cpp, a program in Perl: the load of the application, the
--               environment and the headers, and a request. FCGI, Plack and HTTP::Status are a
--               parameter, `WrapperLib`; `die` throws.
--   Tests       the theorems at concrete inputs, with a semaphore library of one byte, a
--               small operating system and a small Perl.
--
-- Loops recurse on the list of what the operating system returns, and a loop that still waits behind
-- its end has no result. Only the printing of an integer has fuel, 20 digits, and an int64_t has 19.
-- Histories of requests are bounded by 2^50 requests, with semaphores of at most 1024 bytes, so that
-- offsets stay in size_t; a request moves the offset by about its size, even when it fails, so a loader
-- would need years to come near it.
--
-- Not modelled: src/make_unique.hpp, a copy of a function of the standard library; what xsubpp adds to
-- the XS file, and the registration of its functions with Perl; the milliseconds of the log, which are computed in
-- doubles, and its text by vsnprintf, which is an argument; the name that SetProcessTitle gives to prctl.
-- The overseer, the workers and main keep the arguments of `Log` in place of its bytes.
pub mod Base
pub mod Shmem
pub mod Startup
pub mod Semaphore
pub mod Shared
pub mod MainApp
pub mod Run
pub mod Worker
pub mod CommandLine
pub mod Monitoring
pub mod Process
pub mod PerlGlue
pub mod PerlInterpreter
pub mod PerlModule
pub mod FastcgiWrapper
pub mod PerlBridge
pub mod Exceptions
pub mod Logging
mod Tests
