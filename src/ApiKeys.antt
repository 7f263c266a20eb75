-- ===== src/ApiKeys.antt =====
-- connect/shared/apikeys.go: API keys `wc_<env>_<id>.<secret>` with a base-62 id and secret. A
-- big.Int is a number; SHA-256 is a parameter; the random reader is an argument.
pub mod Base62
pub mod Keys
