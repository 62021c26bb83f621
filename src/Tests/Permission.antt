-- ===== src/Tests/Permission.antt =====
-- The permission theorems at concrete inputs.
