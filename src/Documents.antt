-- ===== src/Documents.antt =====
-- The keys of encrypted documents: generated, wrapped for a peer, and unwrapped (the files
-- generateEncryptionKey, encryptKey and decryptKey of document).
pub mod Envelope
pub mod Wrap
pub mod Unwrap
pub mod RoundTrip
pub mod Generate
