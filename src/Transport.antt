-- ===== src/Transport.antt =====
-- shared_protocol/transport.py: reliable delivery, the sender's retries and the receiver's state.
pub mod Sender
pub mod Receiver
mod Examples
