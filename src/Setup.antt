-- ===== src/Setup.antt =====
-- The start of the operator, outside the package `controllers`: main.go and pkg/profiling/pprof.go.
pub mod Text
pub mod Options
