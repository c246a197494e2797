-- ===== src/Kv/Fingerprint/Tests.antt =====
-- Two tokens that 2^32 tells apart.
