-- ===== src/Functime.antt =====
-- functime_debugger/functime.c: the profiler, which runs a program under ptrace, times one of its
-- functions, and asks the kernel module of both_multiple.c to change the pages of its heap.
pub mod Maps
pub mod Trace
pub mod Symbols
pub mod Options
pub mod Start
pub mod Run
pub mod Child
pub mod Waiting
pub mod Profile
pub mod LastPage
pub mod Costs
pub mod Program
