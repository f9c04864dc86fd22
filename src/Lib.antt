-- ===== src/Lib.antt =====
-- Verification of freehttpd, an HTTP server daemon in C: its hash table, its event notification
-- and its asynchronous I/O.
--
-- How the parts interact. `src/core/server.c` keeps its ports in a hash table, and for each port a
-- table of host names (`src/hash/htable.c`, included once for each key type by `int_htable.c` and
-- `str_htable.c`).
-- An I/O context (`src/event/xio.h`) is built on io_uring (`src/event/xio_uring.c`) or on
-- readiness events (`src/event/xio_xpoll.c`); the latter keeps the state of a descriptor in an
-- integer-keyed table, and asks `src/event/xpoll.c` for events.
--
-- Which file models what.
--   Base: shared names, Boolean tests, C arrays as functions with checked access, `&` with a mask.
--   Utils: `util_round_ceil2_ull` of src/utils/utils.c, and src/utils/datetime.c.
--   Htable: src/hash/htable.c and htable.h. Table, Probe, Rehash and Ops hold one function for
--     each operation and loop (`htable_create`, `htable_rehash`, `htable_grow`,
--     `htable_set_with_flag`, `htable_get_with_flag`, `htable_delete_with_flag`,
--     `htable_free_with_cleanup`, the iteration macros); Valid is the invariant,
--     Links, Live and Index are facts on the list and the cells; the other files are named for the
--     operation they are about, History is about sequences of calls of any length, IntKeys is
--     src/hash/int_htable.c and Client is the interface that other parts use. Order, OrderLinks,
--     OrderUnlink, Ordered, OrderRemove and OrderLaws are about the order of the entry list.
--   Xpoll: src/event/xpoll.c over poll(2). Poll holds `xpoll_create` and `xpoll_ctl_fd`, one function
--     for each control code, Wait holds `xpoll_wait`; Valid is the invariant of the list.
--     Kqueue holds the same operations over kqueue(2).
--   Xio: src/event/xio_xpoll.c. Pool holds the pools of tasks, descriptor states and buffer slices,
--     Prep the preparation of a request (on epoll and poll(2), where XPOLL_READ and XPOLL_WRITE are
--     bits), Results the delivery of errors to one descriptor, Wait `fh_xio_wait` and
--     `fh_xio_request_recv`, and Life the creation and the end.
--   Log: the state of src/log/log.c, and how a line is printed.
--   Uring: src/event/xio_uring.c. Data holds the state and the free list of request records, Request
--     the requests, Wait the completions and the reference counts of the provided buffers, Drain and
--     Life the drain, the creation and the end of a context; FreeAll is about several results.
--   Server: src/core/server.c. Socket holds `fh_server_create_socket`, Config the port table and the
--     loop over the configured hosts, Run the creation, the listening and the end of a server; PortMap
--     is the map that the port table stands for.
--   Libtest: libtest, the harness of the repository's tests. Assert holds the counted assertions, Run
--     the child and the parent process of a suite, Signal the names of signals.
--
-- Conventions. A result in `Option` is `none` for undefined behaviour: an access out of bounds or
-- a failed `assert`. Pointers that are computed and not used are not among the accesses. An array
-- is a function from an index, and its capacity bounds each access. A `void *` is a number, NULL
-- is 0. What the allocator or the kernel answers is an argument of the operation: whether
-- `calloc`, `malloc`, `realloc` and `strdup` succeed, and what fresh memory holds. A key stands
-- for its contents, so a copied key is the same key. Arithmetic of a fixed width is written out
-- as a remainder.
--
-- Bounds. A probe loop takes as many rounds as the source's `for`, the capacity of the index. The
-- index holds at most 2^31 cells, so that an entry's number plus one fits 32 bits and is not
-- HT_DELETED; a theorem on an operation that may double the index says so, and the one on
-- sequences of calls bounds the entries that they insert instead. The scan of `xpoll_wait` visits
-- each place once, so its fuel is the number of places; the walk of `fh_xio_free` over the free
-- list needs one round for each record and one for NULL. The other loops are structural.
--
-- Not modelled: `src/hash/rapidhash.h` (a copy of another project's library: a string's hash is a
-- parameter), the calls of epoll, the creation of a queue of kqueue, the text of log lines, the command
-- line, and the time as a floating point number.
pub mod Base
pub mod Htable
pub mod Libtest
pub mod Log
pub mod Server
pub mod Uring
pub mod Utils
pub mod Xio
pub mod Xpoll
