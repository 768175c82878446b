-- ===== src/Mm.antt =====
-- mm.c and include/mm_address.h: physical frames, paging, segmentation and the TSS.
pub mod Frames
pub mod Paging
pub mod Segments
