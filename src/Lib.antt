-- ===== src/Lib.antt =====
-- OrcaDB: a key-value store in C with an HTTP front end. This library models its core and proves
-- what its parts do.
--
-- The program. A request is read into a buffer and parsed (src/misc/http/parse.c), routed, and
-- answered by a handler (src/misc/handler/server.handler.c). The handlers work on one table
-- (src/core/hashmap) under a lock, and log what they do to the append-only file
-- (src/core/storage/aof.c), from which the table is rebuilt after a crash. A snapshot of the table
-- is written and read by src/core/storage/storage.c. The sharded variant (src/core/shard) hands
-- requests to one thread for each shard through a ring buffer, and copies keys and values into
-- arenas (src/core/arena). Keys are hashed by the functions of src/core/hash. Connections are
-- served by threads that wait for events (src/misc/http/worker.c). src/misc/server.c starts it all,
-- and announces itself to the manager (src/misc/manager.c), which passes clients' bytes on.
--
-- Base: tests and words as C has them, arrays, and `Run`, the outcome of code that may return, do
--   something that C leaves undefined, or use up the rounds that the model allows it.
-- Hash (src/core/hash/hash.c): FNV_1a, djb2 and xxhash64 over lists of bytes.
-- Hashmap (src/core/hashmap): `Hashmap` and `Node` for the structs, one function for each of
--   hm_create, hm_insert, hm_get, hm_delete and hm_free. A key is a pointer, and `mem` is what
--   memory holds behind it. The probing loops have no bound in the source. They take fuel, one unit
--   for each round; below `IsValid` with bound `b` no entry is further than `b` from its home, and
--   `b + 1` rounds are enough.
-- Ring (src/core/shard/ringbuffer): the ring of requests, one call of the writer or of the reader
--   being one step, against a bounded queue.
-- Arena (src/core/arena): the bump allocator, a pointer being its distance from the base.
-- Http.Request and Http.Parse (src/misc/http/request.h, parse.c): a pointer into the read buffer is
--   a span of it. The header loop takes one more round than there are bytes, which is enough, since
--   each round drops a byte or ends. Http.Parse.Query, Printed, Lines, Length and Body follow the
--   parser on the text of a request.
-- Http.Route (src/misc/http/route.c): the table of routes, and the handlers for ping, echo and 404.
-- Http.Conn (src/misc/http/response.c, conn.c): the response writer, and a connection over the
--   results of its `read` and `send` calls, one for each round of a loop. `handle_writable` also
--   gives the bytes that it sends; they are not followed through the loop of a worker.
-- Storage and Storage.Read (src/core/storage/storage.c): `db_save`, `db_load` and
--   `db_save_proc`, a file being the list of its bytes. Storage.Format writes out the format that
--   `db_load` reads.
-- Aof (src/core/storage/aof.h, aof.c): the stream as the bytes written to it, with what the source
--   uses of stdio and string.h in Aof.Scan. `replay_loop` takes one more round than the file has
--   bytes, which is enough, since each `fgets` takes one at least. Aof.Durable follows what the
--   sync policies put on the disk.
-- Handler (src/misc/handler/server.handler.c): the three handlers, each one step under the lock.
-- Http.Worker (src/misc/http/worker.c, conn.c): the loop of a worker over the events that the
--   kernel reports, and the pool of connections.
-- Server (src/misc/server.c): start-up, the handshake, and a round of the snapshot thread. Below it
--   Server.Session has sessions of requests, as route.c dispatches them, beside a plain list of
--   pairs. Server.Store, Server.Refine and Server.Restart relate the two, and Server.Text follows the
--   text of a request to the parameters of its handler.
-- Manager (src/misc/manager.c): the registry of servers, and one function for a round of the loop.
-- Shard (src/core/shard/proc.h, shard.c): `db_insert`, the worker's loop as one function for each
--   round, `db_get` as steps of its caller and of the worker under any schedule, and the start of
--   the shards. The slots of the ring that point to the request of `db_get` are marked: once it has
--   returned, a step of the worker that reads one of them is a fault.
--
-- Parameters. What `malloc` returns, and whether calls of the operating system succeed, are
-- arguments. The contents of memory behind keys and values are functions of the pointer, and in the
-- two loaders also of the round, since each key is freed after its insert.
--
-- Not modelled: the calls that open sockets and set their options; src/core/orca.c, whose
-- functions are empty; log output; `load_factor`, which is never read; the weak memory order of
-- the ring's atomic counters.
mod Base
pub mod Hash
pub mod Hashmap
pub mod Ring
pub mod Arena
pub mod Http
pub mod Storage
pub mod Aof
pub mod Handler
pub mod Server
pub mod Manager
pub mod Shard
