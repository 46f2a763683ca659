-- ===== src/H1Syscalls.antt =====
-- kernel/h1_syscalls/src: the system calls that the H1 kernel offers to processes.
pub mod Grant
pub mod ListGrant
pub mod FlashSyscalls
pub mod NvCounterSyscall
mod Tests
