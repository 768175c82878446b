-- ===== src/Tests.antt =====
-- Concrete runs of the theorems of the other modules.
mod Machine
mod Literals
mod Console
mod Kernel
mod Paging
mod Rings
mod Sector
mod Image
mod Builder
mod Program
mod Floppy
mod Whole
mod Runs
mod Wrapper
