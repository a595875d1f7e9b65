-- ===== src/Retry/Bounds.antt =====
-- src/retry.rs: the bounds of the delay before a retry.
