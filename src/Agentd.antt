-- ===== src/Agentd.antt =====
-- The packets between a client and the agent, as the outer envelope reader and writer of the
-- native code make and open them.
pub mod Envelope
pub mod Header
pub mod Payload
pub mod Writer
pub mod RoundTrip
pub mod SharedSecret
