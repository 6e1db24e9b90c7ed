-- ===== src/Conn.antt =====
-- ax25/conn.go: a connected-mode session. The mutex is one step of the model: a method runs whole.
mod Tests
pub mod State
pub mod Send
pub mod Receive
pub mod Calls
pub mod Window
pub mod Valid
pub mod Alive
pub mod Retries
pub mod Held
pub mod Delivery
pub mod Events
