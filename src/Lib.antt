-- ===== src/Lib.antt =====
-- A lottery-style Bitcoin mining pool that speaks Stratum V2 (the crate in pool/). Bitcoin Core hands it
-- block templates over IPC; the server builds a job of each template for every channel, whose coinbase
-- pays the miner's own address, and checks the shares that come back; a share that solves the block goes
-- to Bitcoin Core; shares and miners go to a worker that stores them in SQLite.
--
-- Files and what they model, by the path of the source:
--
--   Base, Words      what the others share: tests on numbers, lists, faults, text literals, byte strings as numbers
--   Bitcoin          the crates bitcoin, hex and binary_sv2, and floats, as records of operations
--   Rpc              pool/src/rpc.rs: the templates of getblocktemplate and their assertions; Json (the
--                    values), Client (the calls)
--   Config           pool/src/config.rs
--   Jobs             pool/src/jobs.rs: Split (the cut at the placeholder), Coinbase (the coinbase of an RPC
--                    template), Tdp (the coinbase of an IPC template), Varint, Merkle
--   NodeIpc          pool/src/node_ipc.rs: Template (the data), Build (build_raw_template and
--                    fetch_template), Loop (ipc_main as a run over what its select sees)
--   Noise            pool/src/noise_connection.rs: the frames of an encrypted connection as they are read;
--                    Write (as they are written), Handshake (accept_noise and connect_noise)
--   Db               pool/src/db.rs: Event, Tables (the rows and the statements), Worker (batches, flushes
--                    and the loop of the worker), Reader (the queries for a hashrate)
--   Stratum          pool/src/stratum_sv2.rs: Target, Address, Extranonce (pure helpers), Protocol (the
--                    messages), State (ConnectionState and its actions), Job (build_job_messages), Setup,
--                    Open, Submit and Broadcast (the handlers), Connection (the loop of a connection);
--                    what a connection may hand over stands in Stratum/Fair
--   Pool             pool/src/main.rs: the connections, the node's thread and the database worker with the
--                    channels between them, as a step relation; its steps come in any order
--   Examples         tests, and the theorems at concrete inputs
--
-- How the code is translated. Numbers are natural numbers; a u32 or u64 that is counted up keeps its wrap
-- (% 2 ^ 32), as in a release build. Strings and hashes are lists of bytes. A handler is an action on a
-- World: the ConnectionState, the messages written, the solutions sent to the node's task, the events
-- sent to the database worker, and a list of answers that says which of the next writes to the socket
-- fail. `?` is the bind of these actions. The map of channels is an association list in the order in which
-- a broadcast visits it. `select!` is a list of events, one for each turn, in any order. What a theorem
-- says of requests is read off the run: the events that a connection's loop meets, each with the state before it
-- (moments_of), and those of all connections on the way to a state of the pool (history). A panic is an error
-- value (or `none` in pool/src/jobs.rs). SQL statements are functions on the rows of the tables; a statement or a commit that fails rolls the whole flush back.
--
-- Bounds. The merkle loop runs on fuel, the number of transactions: each round about halves the level. The
-- loop of read_frame runs on fuel, one unit for each time that the decoder wants more bytes. The byte-wise
-- division that yields a channel's target is stated for difficulties from 1 to 2^120, where its u128 cannot
-- overflow. The counters of channels and jobs are u32, so that where ids must differ, runs of a connection
-- have fewer than 2^32 - 1 events; that of templates is a u64. The handshake reads on fuel, one unit for each
-- question to the decoder.
--
-- What is not in the repository is a parameter: serialization and hashes (BitcoinLib), deserialization of
-- headers and transactions (NodeLib), floats (Floats), the parsers of messages (Codec), the codec,
-- the framing and the cryptography of Noise (Decoder, Encoder, Framing, NoiseLib), SQLite's SUM, and the node
-- behind HTTP (Node). A theorem that relies on their documented behaviour names it as a hypothesis (IsHex, IsHash,
-- IsVerbatim, IsCheckedSum, IsProgressing, IsDecoded, KeepsWallets), and Examples has stand-ins that meet it.
--
-- Not modelled: sockets, threads and logging; Cap'n Proto and HTTP, whose calls stand as their answers; the
-- Noise cryptography; creating the tables; keygen. The queue of solutions holds any number of them, where the
-- code waits at eight; a handler runs in one step of the pool.
pub mod Base
pub mod Words
pub mod Bitcoin
pub mod Rpc
pub mod Config
pub mod Jobs
pub mod NodeIpc
pub mod Noise
pub mod Db
pub mod Stratum
pub mod Pool
pub mod Examples
