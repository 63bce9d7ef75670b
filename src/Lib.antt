-- ===== src/Lib.antt =====
-- A model of lightcache, a cache server in C: the slab allocator of src/slab.c, the hash
-- table of src/hashtab.c, the byte order of src/util.c, the wire protocol of src/protocol.h and the
-- server of src/lightcache.c.
--
-- The program. Clients connect over a socket and send requests of a 12-byte header, a key, data and
-- extra data (src/protocol.h). The loop of main waits with epoll or kqueue (src/epoll.c, src/kqueue.c)
-- and calls `event_handler` of src/lightcache.c, which reads or writes one byte of one connection and
-- moves it through its states. A complete request runs in `execute_cmd`, on the hash table of
-- src/hashtab.c, whose values are the requests that set them. Memory comes from `li_malloc` of
-- src/mem.c, which asks the slab allocator of src/slab.c unless it is told to use the C library.
--
-- The files.
--   Base           lists, bits and the type `Run` of results: `ok`, or the fault that ends the program
--                  or its meaning (an assertion, a null pointer, an index out of range, a use after
--                  free, a wrong free).
--   Slab           src/slab.c. Slab/Bitset is the bitset of a slab, an array of 64-bit words.
--                  Slab/SizeClass is `size_to_cache`. Slab/Links is the lists of slab controls; a
--                  pointer is an index into `slab_ctls`, and the array is a function. Slab/Manager is
--                  `cache_manager_t` and the statistics, Slab/Alloc is `scmalloc` and `scfree`,
--                  Slab/Init the loops of `init_cache_manager` and Slab/Init/Setup the rest of it, with
--                  `deinit_cache_manager`, `malloci` and `freei`; the blocks of the C library are a list
--                  of pointers and sizes. Slab/Places says which slab control is in which list, and
--                  Slab/Valid, with its children for the steps of `scmalloc` and `scfree`, when the
--                  allocator is well formed: `IsAlloc` is its invariant and `IsLive` an allocated chunk.
--                  A function of the source keeps its name; its parts have names of their own.
--   Hashtab        src/hashtab.c and src/hashtab.h. The array is a function from indices to chains, a chain
--                  is a list of items, and a pointer to an item is its bucket and its position there.
--                  Hashtab/Hash is HHASH, Hashtab/Table the operations, Hashtab/Grow `_hgrow` and `hset`,
--                  which call each other. Hashtab/Keys, Hashtab/Chain and Hashtab/Valid say when a table
--                  is well formed and which value it has for a key; Hashtab/Add and Hashtab/Steps are
--                  about one step on a table, Hashtab/Flat, Hashtab/Move, Hashtab/Growth, Hashtab/Set and
--                  Hashtab/Deep about `_hgrow`, and Hashtab/Map, Hashtab/Failure and Hashtab/Enum about
--                  the operations as a whole. Allocations are numbered, and `alloc_ok` says which succeed.
--   Mem            src/mem.c: `li_malloc` and `li_free` over the slab allocator or the C library, whose live
--                  blocks are a list of pointers and sizes; Mem/Account is about the latter.
--   Util           the 64-bit byte swap of src/util.c on a little-endian machine, and in Util/Sendbuf the
--                  binary search of `maximize_sndbuf` of src/socket.c.
--   Protocol       the records and states of src/protocol.h and src/socket.h, and the headers as bytes.
--   Server         src/lightcache.c. Server/State is the globals with a store of requests, in which a
--                  freed request is gone, so that a use after free is a fault. Server/Resources is
--                  `free_request` to `set_conn_state`, Server/Commands `execute_cmd`, with a function
--                  for each command, and `atoull` of src/util.c, Server/Reading `read_nbytes` and
--                  `try_read_request`, Server/Sending `send_nbytes` and `try_send_response`, and
--                  Server/Events `make_conn`, `event_handler` and `disconnect_idle_conns`. Server/Loop is
--                  `event_process` of src/epoll.c and the loop of main, Server/Start the settings, the
--                  arguments and the choice of the allocator. The results of system calls are arguments:
--                  `ReadResult`, `WriteResult`, `Event`, `Ready` and `Round`.
--                  Server/Transfer, Server/Watch, Server/Faults and Server/Settings hold
--                  theorems, Server/Answer the responses. Server/Store is the cache: `TableLaws` is what SET, GET and DELETE ask of the
--                  hash table, and `IsStocked` says that every value is a request that is kept;
--                  Server/Store/Table puts the hash table of Hashtab in its place.
--   Tests          runs of the code and the theorems at concrete inputs.
--
-- What the server takes from elsewhere is the record `Env`: the outcome of each `li_malloc`, the
-- C library's `strtoull`, the text of the statistics page, and the hash table with its operations, for
-- which `table_env` of Server/Store/Table takes those of Hashtab. A table operation may fault, as
-- `strcmp` on a null pointer does.
--
-- Integers are natural numbers; an `unsigned int` or a `uint64_t` that is computed with is taken modulo
-- 2 ^ 32 or 2 ^ 64, written `u32` and `u64`, and -1 is 2 ^ 32 - 1 or 2 ^ 64 - 1. Addresses are natural
-- numbers and the slabs begin at the address `slabs`. An array that is allocated once is a function, which is
-- never NULL, so that the assertion of `scmalloc` on `cm->caches` has no counterpart.
--
-- Fuel. `size_to_cache` gives its search one round more than there are caches, and each round drops one,
-- so that the fuel never ends. `rem` walks a list with one round more than there are slab controls. The
-- theorems on `rem` ask for more fuel than the list is long, and in a well-formed allocator it is. `_hgrow` adds items to a new table by `hset`, which may
-- call `_hgrow` again; the model follows these calls to the depth 2, which is enough where there is memory:
-- a table that is new in a new table has room for all items.
--
-- Not modelled: the floating-point logarithm and factor of `init_cache_manager` of src/slab.c, which are
-- parameters; `htdestroy` of src/hashtab.c, which only frees; the calls of main that set up the socket,
-- the log, signals and the file limit; the registrations of src/epoll.c, which are the field `watch` of a
-- connection, and src/kqueue.c, the same for another system; `deamonize` and the signal handlers of
-- src/util.c; the test code under LC_TEST, the clients and the scripts.
pub mod Base
pub mod Hashtab
pub mod Mem
pub mod Protocol
pub mod Server
pub mod Slab
mod Tests
pub mod Util
