-- ===== src/Collector.antt =====
-- internal/data-collector/fetcher: the collection of manga for the seed file. The HTTP calls and the
-- seed file are parameters (Collector.Sources).
pub mod Unique
pub mod Clean
pub mod Cut
pub mod Json
pub mod Sources
pub mod Run
