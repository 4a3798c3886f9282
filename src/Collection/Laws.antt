-- ===== src/Collection/Laws.antt =====
-- How the retry policy agrees with the cause that is reported.
