-- ===== src/Misc/Tests.antt =====
-- Runs of the helpers at fixed inputs, and the theorems applied there.
