-- ===== src/Lib.antt =====
-- Black-box cache profiling: which pages of a process's heap slow a function down if they are not
-- cached.
--
-- The program has two halves. The profiler, functime_debugger/functime.c, runs a program under
-- ptrace, plants breakpoints at the entry and at the return address of one function, reads the
-- cycle counter between them, and repeats this for each page of the heap. At the entry it writes
-- a request to /proc/memprofile. There a kernel module faults in the heap, walks its pages, and
-- makes noncacheable those that the request names, or all others:
-- functime_debugger/kernel/both_multiple.c, or functime_debugger/kernel/functime_kernel_module.c,
-- which takes several areas and is not limited to the heap. elf_manipulator/elfie.c puts the
-- profile that comes out into the ELF file of the program, and so does its earlier draft,
-- elf_manipulator/elf_manipulator.c.
--
-- Base (Base/Tests, Base/Lists, Base/Words): Boolean tests, lists and 32-bit words over the
-- native numbers. The target is a 32-bit ARM, so that the words of both halves are numbers below
-- 2 ^ 32, and their arithmetic is add_word, sub_word and mul_word.
--
-- Linux: what the kernel modules use of the kernel, as records of operations and laws. Arch has
-- the page table entries, the walk over a range and the mapping of pages; Gup has find_vma and
-- __get_user_pages. An area is a record, a process a list of areas and a map from addresses to
-- entries. What the code does to the caches, the entries and the TLB is a list of actions, in
-- order.
--
-- CacheLines: invalidate_page_l1 and invalidate_page_l2. The fuel is the number of lines of a
-- page.
--
-- FunctimeModule: functime_kernel_module.c. Populate has populate_vma_page_range and
-- __mm_populate_mod, whose fuel is the number of pages of the range and one more; Modifier has
-- cacheability_modifier and the walk that calls it; Finder has vma_finder and get_vma; Write has
-- filling_params and memprofile_proc_write. The laws stand beside them in Populate/Ends,
-- Modifier/Pages, Finder/Area, Finder/Index, Finder/Tasks and Write/Errors.
--
-- BothMultiple: both_multiple.c, with its print_mem and memprofile_proc_write (heap_proc_write).
-- Its copies of the functions of the other module are taken from there. BothMultiple/Heap is
-- about the pages of the heap, BothMultiple/Agrees about the two modules side by side.
--
-- Functime: functime.c. Maps reads /proc/PID/maps (vma_alloc, scan_proc_maps_line,
-- read_proc_maps_file); Trace has set_breakpoint, get_LR, set_PC and the stages of
-- handle_trace_event, on_init, on_entry and on_exit, with the words that the stages plant in
-- Trace/Plants; Symbols is resolve_symbol, against a list of names and values; Child is
-- child_exit_handler on fuel; Waiting is the loop of handle_tracee_signals as a step relation;
-- Start is run_debuggee and set_realtime; Run puts run_debuggee, the loop and the handler
-- together to one run of the tracee, where the loop has fuel for its signals, and each call of
-- the handler for its events; Profile has the two measuring loops of main; Options reads the
-- options; Program is main, composed of these. fork, execv, ptrace, waitpid, sscanf, getopt,
-- strtol and qsort are parameters. The laws assumed of ptrace are in Trace/Laws, where words that
-- overlap are not apart; Trace/Keeps is about what the stages leave alone. Child/Ends is about
-- the handler where the tracee is killed. Profile/Sent is about the requests that the first mode
-- sends, and LastPage puts them to the kernel module. Costs is about runs whose cycles depend on
-- the request alone: Costs/Averages on the first mode, Costs/Lines on the second, Costs/Ranked on
-- what qsort does between them, Costs/Whole on main.
--
-- System: the profiler on top of the module of both_multiple.c. Its state, Combined, has the
-- tracee, the open descriptors of the profiler, and the processes; send_params is the write of a
-- request, served by heap_proc_write. System/Ptraced has the laws of ptrace for it,
-- System/Request and BothMultiple/Tasks a request for one process, System/Timed the page table
-- while the function is timed and the cycles of a call, System/Files the descriptors. How a run
-- of the tracee depends on its page tables, and changes them, is the parameter run_on.
--
-- Loading: mm_exp_load and mm_exp_unload of all modules.
--
-- SinglePage: cacheable_except_one/all_cacheable_except_one.c, an earlier module that changes one
-- page of the heap of a process by its name. AllButOne: all_noncacheable_except_one.c in
-- noncacheable_except_one, which walks all pages but one, and whose changes are commented out; an
-- empty range stops the kernel. Hello is cacheable_except_one/hello.c, which measures itself with
-- the module of SinglePage; Hello/Rounds puts the two together. Its loops over the buffer, in
-- Hello/Buffer, have their number of steps as fuel. HelloOnce is noncacheable_except_one/hello.c
-- with the module of AllButOne, and TwoLoops the function loop of elf_manipulator/two_loops.c,
-- another program to be measured. Mser: all_cacheable_except_one_sd_vbs.c and
-- all_noncacheable_except_one_sd_vbs.c beside them, for a program of a benchmark suite. Its walk
-- down the page tables is a map of entries, and the parameter `backed` says where it does not
-- fault. Mser/Agrees compares what they do with both_multiple.c, and Mser/Tasks is about the
-- processes.
--
-- Elfie: elf_manipulator/elfie.c, one definition for each function. libelf is the interface
-- Libelf. Elfie/File has a view of an ELF file and what each call does to it; Offset, Names,
-- Table and Whole are about the place of the new section, its name, the table of section headers,
-- and the program as a whole.
--
-- ElfManipulator: elf_manipulator/elf_manipulator.c, one definition for each function, with the
-- calls that elfie.c has not in the interface ElfLib. ElfManipulator/Shape has the view and the
-- laws; Search, Update, Add and Names are about is_profiled, setshstrndx,
-- add_elf_sections, and the names of the sections; Again is about the search in a file with the
-- new section, and Whole about a run of the program. The laws say what becomes of new data, and
-- of data marked by elf_flagdata, and nothing of the data that update_profile changes without
-- marking it.
--
-- Tests has a small machine, a small tracee and two small libelfs, and each theorem at inputs for
-- which they run.
--
-- Not modelled: messages (printk, printf), memory that runs out, and the performance counters,
-- which are assembly; the benchmark suite sd_vbs, another project, and script_localization.c,
-- which is the main program of one of its benchmarks.
pub mod Base
pub mod Linux
pub mod CacheLines
pub mod FunctimeModule
pub mod Hello
pub mod TwoLoops
pub mod HelloOnce
pub mod BothMultiple
pub mod Loading
pub mod SinglePage
pub mod AllButOne
pub mod Mser
pub mod Functime
pub mod System
pub mod Elfie
pub mod ElfManipulator
mod Tests
