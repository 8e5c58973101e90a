-- ===== src/Lib.antt =====
-- NxLite, a static-file web server with prefork workers (include/, src/). This library models parts
-- of it as functions and states what they guarantee.
--
-- RateLimit (src/worker.c) models the rate limiter. Its table is a list of entries; each C function
-- is the function of the same name. Time is an argument, the mutex is held for a whole call, so a
-- call is one step, and the log lines are left out.
--
-- Http (src/http.c, include/http.h) has eight parts. Parse models http_parse_request over the bytes
-- of the buffer and http_should_keep_alive; its header loop runs on fuel, one round for each byte of
-- the buffer, and every round takes at least one. Path models validate_and_resolve_path; realpath is
-- a parameter. Response models how a response is built: status, headers, content type and content
-- coding. Cache models the cache of whole responses, and Cache/History any number of stores in it; the
-- time and the answer of malloc are arguments.
-- Send models http_send_response; what the calls of send and sendfile answer is a parameter, and the
-- loops run on fuel, one round for each byte to send. Etag models the tag of a file and its comparison
-- with an If-None-Match header. Serve models http_serve_file and http_compress_content, with open, stat,
-- pread, malloc, zlib and the formatting of dates in a record of functions. Handle composes them all as
-- http_handle_request does; the descriptors that are opened and closed are recorded.
--
-- Mempool (src/mempool.c, include/mempool.h) models the buffer pool of a worker with the free list of
-- its thread; whether the system has memory is an argument. Lists of blocks are followed for as many
-- rounds as the C loops count. Stack sees the two free lists as one, Layout where the blocks lie, Parts
-- which of them are held, and Ownership allocations and frees as steps.
--
-- Worker (src/worker.c, include/worker.h) models the clients of a worker: the handlers of a new
-- connection, of a timer and of a client that can be written to, and the removal of a client. It uses
-- the models of the pool, the rate limiter and Send. The list of clients is the used part of the
-- array; the calls on descriptors are recorded in their order. Worker/Data models the handler of
-- incoming data, which reads, parses, has requests handled and sends the answers; what recv gives, and
-- what the system answers to each request, are parameters. Its loop of recv runs on fuel, one round for
-- each byte of the buffer, and its loop of requests one round for each byte read.
--
-- Worker/Events models worker_run, with the dispatch of events and the loop of accept4, and
-- worker_cleanup. The loop of accept4 runs on fuel: one round for each connection it may take and for
-- each client that it may close. A signal is the end of the list of waits.
--
-- Worker/Steps has the handlers of a worker as steps, of which Worker/Keeping says what they keep, and
-- Worker/Buffers the buffers of the clients; Worker/Start/Sharing joins them with worker_init and the
-- pool.
--
-- Config (src/config.c, include/config.h) models the settings and the file they are read from, whose
-- content is an argument. Its loop of lines runs on fuel, one round for each byte of the file.
--
-- Log (src/log.c, include/log.h) models the text of the log file and of stderr; the time and the
-- formatted message are arguments, and its mutex is left out.
--
-- Master (src/master.c, include/master.h) models the set-up of the listening socket, the table of
-- worker processes and its upkeep by the handler of SIGCHLD and by master_run. What the system
-- answers is an argument; signals are delivered where a call waits, and between fork and the store of
-- its result. Its loops take one element of what the system answers in each round. Master/Child models
-- the processes that it forks, up to the start of their worker. Master/Fresh says what it is for the
-- numbers that fork gives to be fresh. A process of which waitpid says that there is no such child counts
-- as reaped, since the handler of SIGCHLD may have reaped it.
--
-- Main (src/main.c) models the arguments, the directories that are created, and how main joins Config,
-- Log and Master. Main/Signals models the handlers of signals that main sets.
--
-- Worker/Start models worker_init, and worker_add_client, which the program does not call. What
-- mempool_init gives back when it fails itself is left out.
--
-- Server (src/server.c, include/server.h) models an older server of one process, which main does not
-- start.
--
-- Not modelled: the calls of the system that set the limits of the process and the options of sockets,
-- but for whether they succeed; the handlers of signals in a worker, which only set a flag; and the
-- texts that are written for the user.
--
-- Base holds the shared names, list lemmas, and the C string functions that the program calls.
pub mod Base
pub mod Config
pub mod Http
pub mod Log
pub mod Main
pub mod Master
pub mod Mempool
pub mod RateLimit
pub mod Server
pub mod Worker
