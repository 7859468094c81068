-- ===== src/Examples.antt =====
-- A crypto suite with concrete ciphers, and the theorems at concrete arguments.
mod Toy
mod Agentd
mod SimpleCipher
mod Documents
mod Signing
mod Uuid
mod Init
mod Keys
mod Streams
mod Certificates
