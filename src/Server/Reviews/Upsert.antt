-- ===== src/Server/Reviews/Upsert.antt =====
-- The review of a token after it has submitted one.
