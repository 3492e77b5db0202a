-- ===== src/Signals.antt =====
-- The signals of the two ends of a connection, and the linear rules of their tables.
pub mod Ids
pub mod LinearTable
pub mod Metadata
pub mod LocalContainer
pub mod RemoteContainer
pub mod RemoteSignal
