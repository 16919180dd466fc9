-- ===== src/Counter/Tests.antt =====
-- A refresh from the states of a started window manager.
