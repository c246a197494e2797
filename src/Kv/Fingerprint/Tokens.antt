-- ===== src/Kv/Fingerprint/Tokens.antt =====
-- What of the tokens a fingerprint depends on, and how large it is.
