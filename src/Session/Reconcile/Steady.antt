-- ===== src/Session/Reconcile/Steady.antt =====
-- A grant whose Secret and registration are as they should be: a pass only reports.
