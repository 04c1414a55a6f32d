-- ===== src/Diagnostics.antt =====
-- ts-core/src/diagnostics: the side path on which records of diagnostics are written.
pub mod AsyncSink
