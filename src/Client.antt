-- ===== src/Client.antt =====
-- XboxControllerDriver/XboxOne/XboxOneUserClient.cpp: the user client, through which a program
-- enables and disables the driver.
pub mod State
pub mod Lifecycle
pub mod Licensing
