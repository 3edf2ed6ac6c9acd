-- ===== src/Safety/Reports.antt =====
-- The reports of apps/api/src/safety/safety.service.ts.
