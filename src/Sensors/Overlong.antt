-- ===== src/Sensors/Overlong.antt =====
-- A line that the buffer of sample_sensors cannot hold.
