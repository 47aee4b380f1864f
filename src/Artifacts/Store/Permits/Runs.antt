-- ===== src/Artifacts/Store/Permits/Runs.antt =====
-- The response permit in the runs of artifacts/store.ts.
