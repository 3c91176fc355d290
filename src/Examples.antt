-- ===== src/Examples.antt =====
-- Runs of the definitions at concrete inputs, and the theorems applied to them.
mod Wire
mod Framed
mod Ring
mod Board
pub mod Data
mod Tcp
mod Lifetimes
mod Control
mod Usb
mod Links
mod Log
mod Names
mod Client
mod Threads
mod Csv
mod Logger
mod System
mod Shutdown
mod Watching
