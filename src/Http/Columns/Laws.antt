-- ===== src/Http/Columns/Laws.antt =====
-- The arrays of a batch against its schema.
