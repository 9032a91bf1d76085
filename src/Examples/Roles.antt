-- ===== src/Examples/Roles.antt =====
-- Roles and permissions, at concrete users.
