-- ===== src/SimpleCipher.antt =====
-- `SimpleStreamCipher`: a message encrypted under a session key that is itself encrypted under the
-- key of the object, with an authentication code at the end.
pub mod Envelope
pub mod Encrypt
pub mod Decrypt
pub mod RoundTrip
pub mod Opens
