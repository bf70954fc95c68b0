-- ===== src/Lib.antt =====
-- The power and sensor daemon of the repository (powersensordaemon/): it serves clients on a unix
-- socket, queues their commands for the firmware behind a serial line, and passes the lines of
-- the firmware on to the clients that listen. A child process asks for samples at fixed
-- intervals. Around it stand the older programs of serial_console/, which connect a terminal to
-- the serial line or to the daemon's socket and record what the sensors say, and reset_tty/.
--
-- A definition has the name of the C function or macro that it translates, and a part of a long
-- function is a definition of its own, named for what it does. World has what stands outside the
-- program: the outcomes of the coming calls of write and of the allocations, and the trace of
-- what has been written, closed and logged. Datatypes is datatypes.h, CommandQueue
-- command_queue.c, ClientList client_list.c, StringList string_list.c, and KeyValue
-- key_value_storage.c. Below Daemon stands powersensordaemon.c: Send has send_command,
-- send_response and SEND_TO_LISTENER; Commands has process_cmd; Lines has nonblock_readline; Tty
-- has process_tty; MainLoop has main_loop, as a function for a run of its body, with the end of
-- the body and the loop around it in MainLoop/Body. Options is options.c, with the configuration
-- files in Options/Files; Autosample is autosample.c; Log is log.c with log_targets.h; Log/Output
-- has stdlog and the part of main that sets it up, Log/Lines the text of a line, and Log/HexDump
-- log_print_hex_dump; SigHandler is sig_handler.c, with signal_init and signal_stop in
-- SigHandler/Setup, and Privileges the part of daemon.h that main drops its rights with. Startup
-- is what surrounds main_loop: Socket has init_command_socket, Tty setup_tty and clear_fd, Fork
-- start_autosample_process of autosample.c, Daemonize daemonize of daemon.h, Serial the loop of
-- main that opens the serial line and the end of main, and Main the whole of main, composed of
-- these parts. Sensors is serial_console/sample_sensors.c; Sensors/Stream has a listener that
-- does the same on lines, without the buffer. Console is serial_console/usocket.c, Console/Serial
-- serial.c, and Console/Start has the main functions of the three programs. ResetTty is
-- reset_tty/reset_tty.c. Daemon/MainLoop/Protocol is an abstract protocol of requests that
-- Refines, Simulation and Follows relate main_loop to, and Drains is about a firmware that is
-- silent. The children of a module hold its proofs. Tests has concrete inputs.
--
-- State. A linked list is a list, a struct a record, a null pointer `none`, and what a function
-- changes through a pointer is part of its result. The functions of the daemon share the record
-- Shared: the queue, the clients and the world. A client's line buffer is a field of the client,
-- as in C, and nonblock_readline gets it and its new value is stored under the client's
-- descriptor. An int is a ℤ; the lengths, offsets and counters that C keeps in 32 bits are
-- natural numbers, which is exact here: an offset is below 100, and the messages are the daemon's
-- own strings. A counter of seconds or microseconds is a natural number too.
--
-- Loops. A loop over a list, a string or the words of the command line is structural recursion. A
-- loop that waits for a system call is recursion on the list of the outcomes that the coming
-- calls have; what follows at the end of the list is written at each definition: write then takes
-- everything, an allocation succeeds, read returns EAGAIN, and select finds nothing. So these
-- loops have no fuel, and every such list describes one behaviour of the system. A call that need
-- not return has an Option as its result: send_command with an empty parameter (`none`), the read
-- of the autosample switch, and the states `hangs`, `stuck` and `blocked` of the two main loops.
-- main_loop, autosample_process, sample_sensors and the terminals run over a list of rounds, and
-- end with the state that they are in after these. The loop of sample_sensors over the lines of
-- its buffer has fuel: every line takes a byte at least off the buffer, so that one more than the
-- number of its bytes is enough, and Sensors.Laws compares it with a listener that has no fuel.
--
-- Parameters. What select, accept, read, signal_handle and gettimeofday return, errno's text, the
-- files that fopen finds, the syslog facilities and the text that vsnprintf makes.
-- options_parse_key_value_file has no return statement on success: what its caller finds is the
-- parameter `off_end`; so it is for do_chroot. What the system calls of the start return is in
-- the records SocketEnv, TtyEnv, DaemonEnv, PipeEnv, SignalEnv and System; the calls that have
-- been made are a list, OsCall, in their order. Behind a fork the model follows the process that
-- goes on.
--
-- Not modelled: the functions that only print or only free, options_parse_hex_string, which
-- nothing calls; the range of atoi and of int counters; failures of asprintf, and writes of the
-- older programs that take less than they are given; freed memory, in that a value is no longer
-- used once it has been freed. rf433ctl (the sketches for the microcontroller, and the libraries
-- of other projects that they come with), and the scripts and packages of the repository are not
-- modelled: they are not C, or they are only clients of the daemon's socket.
pub mod Prelude
pub mod World
pub mod Datatypes
pub mod CommandQueue
pub mod ClientList
pub mod StringList
pub mod KeyValue
pub mod Daemon
pub mod Options
pub mod Autosample
pub mod Log
pub mod SigHandler
pub mod Privileges
pub mod Startup
pub mod Sensors
pub mod Console
pub mod ResetTty
pub mod Tests
