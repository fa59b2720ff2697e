-- ===== src/Sched.antt =====
-- src/sched.c: the fault handler and the fibers of one thread. The calls of the system are
-- parameters. A switch to the context of a kernel is a call of it: the kernel runs until its
-- trampoline switches back to the main context.
pub mod Handler
pub mod Fibers
pub mod Faults
pub mod Twice
pub mod Dispatch
mod Tests
