-- ===== src/Chat.antt =====
-- Unix_Chat_Service: a chat server and its clients over named pipes.
pub mod Blather
pub mod Os
pub mod Ends
pub mod Server
pub mod Simpio
pub mod Client
pub mod Delivery
pub mod Room
pub mod Demo
mod Tests
mod RoundTests
