-- ===== src/Daemon/Tty/Line.antt =====
-- A line of the firmware, from its bytes to what it does.
-- Bytes that do not end a line, and leave room in the buffer, are kept.
