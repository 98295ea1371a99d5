-- ===== src/Tests.antt =====
-- A small machine, tracee and two libelfs, and the theorems at inputs that exercise them.
mod Machine
mod Modules
mod Requests
mod Tracee
mod Measuring
mod Profiling
mod Ranking
mod Elf
mod Running
mod Sections
mod Together
mod Symbols
mod Earlier
