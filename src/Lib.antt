-- ===== src/Lib.antt =====
-- A model of rpc-perf, which measures RPC services: sessions over plain or TLS connections, the
-- codecs that write requests to a session and take responses from it, the workers that drive the
-- sessions from the events of a poll, the admin thread that reports what they count and answers HTTP
-- requests, and the program that replays a trace of requests.
--
-- How the parts interact: a codec draws a command, a key and a value from the configuration, and
-- writes a request to the session's write buffer; `flush` gives the pending bytes to the stream;
-- `fill_buf` takes what the stream has into the read buffer; the codec's `decode` looks at the read
-- buffer and consumes a response from its front, or reports that it is incomplete, an error or
-- unknown. A worker connects to the addresses in its queue, sends requests over the sessions in its
-- ready queue, as its limiters allow, and handles the events of each session: it goes on with the
-- handshake, reads and counts responses, writes what is pending, and closes a session on an error,
-- after which it connects to its address again. The admin thread takes snapshots of the counters,
-- reports the difference of two at the end of each window, and sets the rate of the limiters that it
-- shares with the workers, as `Builder::new` arranges.
--
--   Base            lists, bytes, decimal and big-endian numbers, panics and results
--   Net, Rand       sockets, TLS and the poll, and the random generator: parameters, since mio,
--                   BoringSSL, rand and zipf are not this repository's code. `Fits` is what the
--                   traits Read and Write promise of them
--   Metrics         the counters of src/metrics.rs that the modelled code changes
--   Buffer          src/session/buffer.rs: `with_capacity`, `reserve`, `extend_from_slice`,
--                   `consume`, `increase_len`, `borrow`; `fill` stands for a reader that writes to
--                   what `borrow_mut` lends
--   Stream          src/session/stream.rs and tcp_stream.rs; Stream.Handshakes has any sequence of calls
--                   on a stream whose handshake has begun
--   Session         src/session/mod.rs: all operations, under their names
--   Keyspace        src/config.rs: `generate_key`, `generate_inner_key`, `generate_value`,
--                   `choose_command`, `choose_keyspace`, and the types of src/config_file.rs;
--                   Keyspace.Configure has `Config::new`, where building a distribution is a
--                   parameter, and `Within` is what a weighted index promises
--   Writer, Reply   how a codec writes, and what `decode` of src/codec/mod.rs returns
--   Codec.Ping, Codec.Echo, Codec.Memcache, Codec.Redis, Codec.Thrift, Codec.ThriftCache
--                   the files of src/codec
--   Host            what src/worker.rs takes from crates: the clock, limiters, heatmaps, the slab of
--                   sessions and the TLS connector, a parameter. `Keeps` is what a slab promises
--   Coder           the trait Codec as a worker sees it, and `Obeys`, the contract of a codec that a
--                   worker rests on; Codec.Ping.Worker is the ping codec as one that obeys it
--   Worker          src/worker.rs: the operations under their names; Worker.Start has `new` and the
--                   setters, Worker.Traffic `send_request`, `do_read` and `do_write`, Worker.Turn
--                   the rounds of `run`, Worker.Connector `ssl_connector` over a builder of
--                   BoringSSL that is a parameter
--   Replay          src/replay.rs: `decode`, and the requests that `send_request` writes;
--                   Replay.Trace has the two formats of a trace, Replay.Worker the event loop
--   Settings        src/config_file.rs: the sections under their names. Settings.Toml and
--                   Settings.Keyspaces take what a file gives and fill in the defaults;
--                   Settings.Target has `endpoints`, over a resolver and ZooKeeper as parameters
--   Admin           src/admin.rs: Admin.Snapshot has `Snapshot::new` and `delta_count`, and
--                   Admin.Snapshot.Registry the statics of src/metrics.rs; Admin.Text `human`,
--                   `json` and `prometheus`; Admin.Report `emit_log` and `emit_json`; Admin.Routes
--                   the answers to requests; Admin.Run the thread and its loop
--   Builder         src/lib.rs: `Builder::new`, with the admin thread and the workers. What makes
--                   a limiter or a heatmap is a parameter that returns a handle and the state
--                   outside after it, so that what is shared is one handle
--   Tests           the theorems at concrete inputs
--
-- Time: `run` of src/admin.rs is a function over ticks. A tick is one reading of the clock at the head
-- of the inner loop, with what the other threads have done since, the counters that the pass reads
-- and the requests that wait. A `HashMap` is the list of its entries in some order of iteration. An
-- f64 of a report is a parameter.
--
-- State: a call that changes a session or a counter takes it and returns it anew. A panic (a slice
-- out of range, `unimplemented!()`) is the outcome `panic`; `std::io::Error` is its kind. A usize
-- wraps at 2^64, as in a release build. A random generator is threaded through the draws.
--
-- Bounds and fuel: a buffer has at most 2^62 bytes, so that no usize wraps and the next power of two
-- exists. A ready session has capacities that are powers of two, as the workers choose them. The
-- loop of `fill_buf` has fuel for one pass more than `max_capacity`: each pass but the last takes a
-- byte or more, and a full buffer ends it. The loop that counts memcache hits has fuel for the
-- length of the response, and each round moves the iterator by one byte at least. Doubling to a
-- power of two has 64 rounds, one for each bit.
-- `do_read` has fuel for reads that are interrupted, which nothing bounds; the loop over the
-- responses has fuel for those outstanding, and each round takes one. The loop that takes credits
-- has fuel for one round more than are missing. The loop over a binary trace needs fuel for one
-- round more than there are records. What a handler of an event loop comes to is a `Progress`: it
-- returns, it panics, or fuel runs out. The microseconds of a latency in src/replay.rs are computed
-- exactly here and as an f64 there.
--
-- Not modelled: the controllers, `main` and `Worker::new` of src/replay.rs, the TOML of
-- src/config_file.rs, and the start of the log and of the threads in src/lib.rs: they call clocks,
-- files and TLS libraries and start threads, with little logic of their own.
pub mod Base
pub mod Settings
pub mod Admin
pub mod Metrics
pub mod Net
pub mod Buffer
pub mod Stream
pub mod Session
pub mod Rand
pub mod Keyspace
pub mod Writer
pub mod Reply
pub mod Codec
pub mod Host
pub mod Coder
pub mod Worker
pub mod Replay
pub mod Builder
pub mod Tests
