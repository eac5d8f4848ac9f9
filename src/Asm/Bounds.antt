-- ===== src/Asm/Bounds.antt =====
-- The second pass stays within its buffer.
