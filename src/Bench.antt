-- ===== src/Bench.antt =====
-- bench: the benchmark of bench/micro.c with its parts under bench/impl.
pub mod Io
pub mod Micro
pub mod Sbma
pub mod Libc
pub mod Options
