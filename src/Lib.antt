-- ===== src/Lib.antt =====
-- The admission broker for llama-server's slots (aivyx-broker), modelled and proved.
--
-- The broker is a loopback HTTP server in front of one llama-server. It admits chat completions onto
-- llama-server's slots, keeps a table of which prompt prefix each slot holds, hands out a lease for
-- exclusive GPU work, and reports models, slots and GPU memory. A request passes the host guard and
-- then a handler; the chat handler asks the scheduler for a slot and leaves the slot's work to a
-- task that holds it until llama-server is done.
--
--   Scheduler      src/scheduler.rs: `Inner` is the state under the mutex and each method's locked
--                  part a function of it. `System` is the step relation of many requests in
--                  `Scheduler::admit`, each at the mutex, waiting, or holding a slot;
--                  `System.History` notes its admissions in order.
--   GpuLock        src/gpu_lock.rs, in the same way: `acquire_locked`, `release`, `reap_expired`,
--                  and `System` for many callers of `acquire`.
--   Channels       the one-shot channels by which both wake a waiter, and in Channels.Deadline the
--                  loop of attempts and waits that `admit` and `acquire` share, for one call.
--   HostGuard      src/host_guard.rs; HostGuard.IpAddr is the standard library's parser of
--                  addresses, and HostGuard.Dotted the printed form of an IPv4 address.
--   LlamaClient    src/llama_client.rs, over the interface Json of JSON values; Json.Tree is one kind
--                  of these, which satisfies the interface's laws.
--   Gpu            src/gpu.rs: the parsers, the choice of a card, and `run_with_deadline`.
--   Server         src/server.rs. Server.Upstream is `send_upstream` and `warm_or_restore`,
--                  Server.Relay the task `forward` and how it unwinds when it panics, Server.Chat
--                  the handler `chat_completions`, Server.Chat.Channel the bounded channel
--                  between the two (Streams: what the body yields, Flow: that it ends),
--                  Server.Handlers the other handlers, Server.VramCache the cache of GPU memory,
--                  Server.Router the state of the server and `build_router`.
--   Broker         the composition: chat completions over one scheduler, each with the task of
--                  Server.Relay, their actions in any order. Broker.Invariant says what is left of
--                  each task and Broker.Refinement relates the composition to Scheduler.System;
--                  Broker.Progress, Steps and Served are about runs that end a task or serve a waiter.
--                  Broker.Coherence puts what llama-server's slots hold beside the broker's table of
--                  it: LlamaServer is what a call does to the slots, Slots notes which records a
--                  refused warm-up or a panic may have put out of date, and Run has the runs of both.
--                  Broker.Coherence.Requests is about what the broker's requests ask of llama-server, and
--                  Broker.Coherence.Isolation about the slots that the tasks work on.
--   Main           src/main.rs and src/config.rs: the start, and the tasks that reconcile slots and
--                  reap the GPU lock.
--   Http, Prelude  responses, and shared helpers.
--
-- Numbers are natural numbers, with the casts `as u32` and the wrap-around of `u64` written out; the
-- theorems on slots say where they need at most 2^32 of them. Times are numbers of one monotonic
-- clock. The forwarding task is the list of its actions in order, from functions that say what
-- llama-server, the cache and the client answer; tokio's channels and `timeout_at` are modelled as
-- documented. Two loops have fuel: the poll loop of `run_with_deadline` polls once more than the
-- timeout holds poll intervals, rounded up, and the loop of `admit` and `acquire` has one round more
-- than the timeout has ticks; the theorems on them show that this is enough.
--
-- Parameters, since their code is not in the repository: JSON values (Json, with the laws of maps
-- and of reading back that are used), the text form of UUIDs, the decoder of slot hints, the
-- KV-cache store, and what llama-server's slots hold (Documented: it is not restarted, and serves
-- nobody else; Asks is how it reads a request). axum's routing and its extractors of JSON bodies are
-- the interface Server.Router.Axum, with laws for static paths. Not modelled: the command line's
-- parser, logging, sockets, and a panic while a mutex is held.
pub mod Prelude
pub mod Channels
pub mod Gpu
pub mod Http
pub mod Json
pub mod LlamaClient
pub mod Main
pub mod Server
pub mod Scheduler
pub mod Broker
pub mod GpuLock
pub mod HostGuard
