-- ===== src/Programs.antt =====
-- The smaller programs of src/bin: embuer-genkeys in Keys, embuer-genupdate in Bundle,
-- embuer-service in Daemon, embuer-client in Client, and test-signature in Probe.
pub mod Keys
pub mod Bundle
pub mod Daemon
pub mod Client
pub mod Probe
