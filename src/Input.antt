-- ===== src/Input.antt =====
-- XboxControllerDriver/XboxOne/XboxOneInputInterface.cpp: the driver of the controller interface.
pub mod State
pub mod Send
pub mod Receive
pub mod Session
pub mod Service
pub mod Setup
pub mod Startup
pub mod Shutdown
pub mod Strings
pub mod Description
pub mod Debug
