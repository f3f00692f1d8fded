-- ===== src/Communication.antt =====
-- client/communication: the sessions in which a member gets a group key from another one.
pub mod Message
pub mod Server
pub mod Client
pub mod Exchange
pub mod Manager
