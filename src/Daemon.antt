-- ===== src/Daemon.antt =====
-- powersensordaemon/powersensordaemon.c: what it sends, the commands that it takes from clients,
-- the lines of clients and of the firmware, and its main loop.
pub mod Send
pub mod Commands
pub mod Lines
pub mod Tty
pub mod MainLoop
