-- ===== src/Router.antt =====
-- ax25/router.go: the frame router and its ports.
mod Tests
pub mod Port
pub mod Table
pub mod Dispatch
pub mod Throughout
pub mod Queue
pub mod Echo
pub mod Pick
pub mod Select
pub mod Bridge
pub mod Running
pub mod Ready
pub mod Lifecycle
