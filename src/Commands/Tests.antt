-- ===== src/Commands/Tests.antt =====
-- The address bar, and the last entry of each block.
