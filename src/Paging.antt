-- ===== src/Paging.antt =====
-- arch/x86_64/src/paging: page tables of x86-64 and the mapper that edits them.
pub mod Table
pub mod Mapper
