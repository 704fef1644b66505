-- ===== src/Serial/Tests.antt =====
-- A run of kernel/console/serial/uart.c.
