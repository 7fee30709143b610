-- ===== src/Certification.antt =====
-- certification: the certificate of the firmware that the regulator answers with (client.go), and
-- its identifier in the environment file (envfile.go).
pub mod Regulator
pub mod EnvFile
pub mod Verdict
pub mod Lookup
