-- ===== src/Tests.antt =====
-- The theorems at concrete inputs, over a concrete instance of what the program calls.
pub mod Wire
pub mod World
mod CryptoTests
mod StateTests
mod FsTests
mod ContextTests
mod UserWorld
mod UserTests
mod OpeningTests
mod Peers
mod MainTests
mod RepoTests
mod CommunicationTests
