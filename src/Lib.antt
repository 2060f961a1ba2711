-- ===== src/Lib.antt =====
-- lo2s records a process or a whole system with Linux perf events and writes an OTF2 trace.
-- Measuring libraries that it injects for GPU and OpenMP events pass them to lo2s through a ring
-- buffer in shared memory; perf events come through rings that the kernel fills. Monitors read
-- these rings, and keep for every location a tree of calling contexts with the current call stack,
-- from which enter, leave and sample events go to the trace; at the end these trees are merged into
-- one. Sampled addresses are resolved in a map of the address space. A controller follows the process and its children with ptrace.
--
-- Which file models which part:
-- - Rb, with Rb/Memory, Rb/Reader and Rb/Writer: src/rb/shm_ringbuf.cpp, reader.cpp, writer.cpp and
--   include/lo2s/rb/. The two adjacent mappings of the data area are one function from offsets to
--   bytes, read at the offset modulo the size. Rb/Layout, Rb/Offsets, Rb/Fifo, Rb/Drain and
--   Rb/Session prove things of it. `put` is what every writer of events does between taking its
--   lock and releasing it, `take` one round of a monitor's loop.
-- - Address and MemoryMap: include/lo2s/address.hpp and include/lo2s/memory_map.hpp. The `std::map`
--   is the list of its entries in order; MemoryMap/Order, Lookup, Valid, Truncate, Emplace and
--   Search prove things of it.
-- - Ompt and Cctx: include/lo2s/ompt/events.hpp and include/lo2s/calling_context.hpp. For
--   `operator!=`, which reads a member that was not set, the union of a context is its first 8
--   bytes and numbers that the proofs leave open.
-- - CctxTree: include/lo2s/local_cctx_tree.hpp and src/local_cctx_tree.cpp. Nodes have stable
--   addresses, which are indices into the list of nodes in the order of their creation; `written`
--   is what goes to the trace. CctxTree/Node, Stack, Trace, Leave, Enter, Sample, Calls and Times
--   prove things of it.
-- - Scope: include/lo2s/execution_scope.hpp, measurement_scope.hpp and execution_scope_group.hpp.
-- - PerfReader: include/lo2s/perf/event_reader.hpp. The handlers of the client class are a
--   parameter, with a state of their own.
-- - Controller: src/process_controller.cpp. What ptrace(2) and the process monitor answer is a
--   parameter; what is asked of them is logged.
-- - OmptMonitor and GpuMonitor: src/monitor/openmp_monitor.cpp and src/monitor/gpu_monitor.cpp,
--   clients of the calling context trees. The conversion of time points is a parameter.
-- - OmptRing: include/lo2s/ompt/ringbuf.hpp, and the loop of src/monitor/openmp_monitor.cpp with its
--   ring: the events as the bytes that Rb transports (Rb/Words: the fields of a struct).
-- - GpuRing: include/lo2s/gpu/ringbuf.hpp, and what the GPU monitor reads of its events.
-- - SyscallWriter: src/perf/syscall/writer.cpp.
-- - Resolvers: src/resolvers.cpp, and `emplace_resolvers` of src/perf/sample/writer.cpp. What opens a
--   binary, and the map that a process starts with, are parameters. Resolvers/Valid and
--   Resolvers/Found prove things of the maps.
-- - SampleWriter: src/perf/sample/writer.cpp, a client of the calling context tree, record by record.
--   SampleWriter/Steps, Order, Finish and Mixed prove things of it.
-- - MultiReader: include/lo2s/perf/multi_reader.hpp and the orders of io_reader.hpp and
--   event_attr.hpp. The writer is a parameter. MultiReader/Merge says what a merge by time is, as steps;
--   Queue, Drain, Current, Fill, Ascending and Read prove that `read` is one.
-- - Bio: src/perf/bio/writer.cpp and include/lo2s/perf/bio/writer.hpp, and in Bio/Merge that writer
--   behind the merge. `makedev` is a parameter.
-- - Trace: the merge of the local trees into the global one in src/trace/trace.cpp. The functions
--   that make definitions in the registry of otf2xx are parameters. Here a `std::map` of nodes is
--   the list of its nodes, each with its own map, as the containers are nested in the source.
-- - LineInfo and Kallsyms: include/lo2s/line_info.hpp, src/resolvers/kallsyms.cpp and
--   include/lo2s/resolvers/kallsyms.hpp. What the regular expression takes from a line is given.
-- - PosixMonitor: src/monitor/posix_monitor.cpp, and posix_io_handle of src/trace/trace.cpp;
--   PosixMonitor/Bpf adds src/perf/posix_io/posix_io.bpf.c, whose ring and maps the monitor shares,
--   and runs both by steps in any order. PosixMonitor/Keys, Begun, Handle, Exit, Pair and Between, and
--   PosixMonitor/Bpf/Safe prove things of them. The registry of otf2xx has a handle once it was
--   emplaced; the communicators that it has for processes are a parameter.
-- - ProcessMonitor: src/monitor/process_monitor.cpp on the actions that Controller logs; what comes of
--   making and starting a thread's monitor is a parameter. ProcessMonitor/Phases says what life a
--   monitor has, Phases/Launch and Phases/Run prove that each has it; Phases/Count has how many there are.
-- - PollMonitor and ScopeMonitor: src/monitor/poll_monitor.cpp, threaded_monitor.cpp and
--   scope_monitor.cpp. What poll(2) returns and the readers are parameters.
-- - Counters: include/lo2s/perf/counter/ and `handle` of src/perf/counter/group/writer.cpp, with
--   `perf_metric_class` of include/lo2s/trace/trace.hpp. The arithmetic of doubles is a parameter.
--   Counters/Exact and Counters/Members prove things of them.
-- - Shared: Boolean tests, lists, signed integers, and the outcome of a call that can throw or fail
--   an assertion.
--
-- Bounds and fuel. A `uint64_t` sum in the rings keeps its wrap-around written out. The loop of
-- `cctx_leave` has the depth of the call stack as fuel, and `read()` the number of bytes in the
-- ring: each round removes a node, or at least 8 bytes. The outer loop of MultiReader's `read()` has
-- the number of events, of which every round takes one at least. The assertions of the source are
-- checked, but for that of `merge_calling_contexts`.
--
-- Not modelled: system calls, sockets and shared memory as such, threads and the interleaving of
-- the two sides of a ring inside one operation, events that come while `read()` merges, names and
-- log output, the writing of the trace, other symbol resolution, the definitions that the trace makes for contexts and metrics, events and their names, configuration, and the libraries that the repository bundles.
pub mod Shared
pub mod Rb
pub mod Address
pub mod MemoryMap
pub mod Ompt
pub mod Cctx
pub mod CctxTree
pub mod Scope
pub mod PerfReader
pub mod Controller
pub mod OmptMonitor
pub mod GpuMonitor
pub mod SampleWriter
pub mod MultiReader
pub mod Bio
pub mod LineInfo
pub mod Kallsyms
pub mod Trace
pub mod OmptRing
pub mod SyscallWriter
pub mod GpuRing
pub mod Resolvers
pub mod PosixMonitor
pub mod ProcessMonitor
pub mod PollMonitor
pub mod ScopeMonitor
pub mod Counters
