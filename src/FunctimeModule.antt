-- ===== src/FunctimeModule.antt =====
-- functime_debugger/kernel/functime_kernel_module.c: the kernel module that makes chosen pages of
-- chosen areas of a process noncacheable, or all others.
pub mod Modifier
pub mod Populate
pub mod Finder
pub mod Write
