-- ===== src/Lib.antt =====
-- A verification library for the matchmaking service: players join a queue in Redis, workers form
-- matches from it, and players accept or decline their match over HTTP.
--
-- The parts and their files:
-- - Model: internal/model/model.go. Shard, QueueEntry, Match and the status texts.
-- - Keys: internal/rediskeys/keys.go, one function for each key. Keys/Disjoint compares them.
-- - Queue: internal/queue/client.go. join, cancel, get_match with join_script and cancel_script;
--   Queue/Band has computeRatingBand, Queue/Join what a join and a cancellation do.
-- - Worker: internal/worker/worker.go. Worker/Select has selectGroup (select_group), Worker/Scripts
--   the Lua scripts, Worker/Pop the rest of popOnce (pop_batch, commit_match, repush_group,
--   form_matches), Worker/Owner a try of acquireShardLock, a tick of renewLockLoop,
--   releaseShardLock and drainProcessing, Worker/Stream the consumer of the match stream
--   (ensureStreamGroup, claimStaleStreamEntries, streamConsumerLoop, processStreamEntry) on a state
--   of its own, a Consumer. Worker/Scripts/Lock has sequences of lock steps,
--   Worker/Scripts/Recovery the entries in flight, Worker/Scripts/Commit the commit of a match;
--   Worker/Pop/Formed has commitMatch and repushGroup as a whole; Worker/Pop/Flight says which
--   entries are in flight, Worker/Pop/Leaving has what takes them out, Worker/Pop/Holding and
--   Worker/Pop/Custody carry them through popOnce, Worker/Pop/Repush follows a group through a
--   pipeline that breaks off. Worker/Owner/Tenure has the time in which a worker holds its shard.
--   Worker/Stream/Keeps carries a property through every step of the consumer;
--   Worker/Stream/Lossless has consumers that start and crash in any order, Worker/Stream/Trimmed
--   what MAXLEN leaves in the stream, Worker/Stream/Claims, Reclaimed and Consumed the two loops.
--   Worker/Start has Run up to its loops and popLoop, Worker/Start/Recovers a start after a crash,
--   Worker/Start/Rounds the rounds of popLoop.
-- - Store: internal/store. The tables, and each statement as one function on them; Store/Marks
--   compares the order of insertions and marks.
-- - Config: the four config.go. LoadConfig over an environment; Config/Required has what is
--   missing, Config/Shards parseShards.
-- - Matchops: internal/matchops/ops.go. dissolve and confirm; Matchops/Scripts has their scripts,
--   Matchops/Confirmation and Matchops/Dissolution the two operations as a whole.
-- - Api: internal/api/handler.go. The five handlers over decoded bodies, Api/Scripts their scripts.
-- - Lifecycle: a match as the API promises it, a Ballot with its phase and votes, on which the
--   scripts of internal/api/handler.go and internal/matchops/ops.go act (run_op, with the keys of
--   the service). Lifecycle/Represents says when a keyspace holds a ballot; Lifecycle/Voting,
--   Lifecycle/Closing and Lifecycle/Refines compare the two.
-- - Cache: internal/cache/cache.go. get_int and invalidate.
-- - Reconciler: internal/reconciler/reconciler.go. process_timed_out, and Run for a number of
--   ticks; Reconciler/Reports has what it publishes and starts.
-- - Hub: internal/hub/hub.go and internal/hub/client.go. register and unregister are the cases of
--   Hub.Run, recipients is fanOutDirect; process_event and replay_pending are the goroutines.
--   Hub/Loop is Run with the goroutines that it starts, Hub/Pumps has writePump, readPump, the
--   sends of fanOutDirect and ServeWS, each over what the connection does. Hub/Channels has
--   sequences of steps, Hub/Replay the pending frames. FrameJson is the encoding of wsEvent, a
--   parameter.
-- - Effects: the state of a process. A World has the Redis keyspace (store), the fate of each round
--   trip (net: delivered, request lost or reply lost), the readings of the clock, the events that
--   internal/publish/publish.go has published, the goroutines that were started and have not run,
--   and MatchMaker.matchSeq. M is the state monad over it; `call`, `query` and `command` are round
--   trips, so every error of the Redis client is a value; `pipeline` is a pipeline without a
--   transaction, each of whose commands has a fate of its own, so it may break off anywhere.
-- - Redis: the server, which the service uses and does not implement. The record Redis has the
--   commands as a parameter, each with its documented effect on a Keyspace; Redis/Memory is a
--   server that has them all. Redis/Groups has a stream with its consumer group, in the same way;
--   an entry is its id there, and what it holds is a function of the id. An entry that MAXLEN
--   evicts is gone from the group too: how many go is up to the server, and the newest ones stay. A
--   script is one atomic function on the keyspace, as Redis runs it.
-- - Json: encoding/json and cjson, a parameter with the documented round trips. Tests/Codec is an
--   instance.
-- - Shared: lists, tests and integers over the native numbers, int32 arithmetic that wraps, decimal
--   numbers with strconv's ParseInt, and Go's strings package as far as it is used (Texts).
-- - Tests: the theorems at concrete inputs, and runs of the model.
--
-- How the parts meet: the API joins and cancels through the queue client; the worker pops from the
-- queue keys and commits matches to the match keys; accept and decline, and the reconciler after a
-- timeout, call Confirm and Dissolve, which end the forming state. The hub turns the published
-- events into frames. All share nothing but the keyspace and the events.
--
-- Bounds: times are nanoseconds since the epoch, as natural numbers. The float of Duration.Seconds
-- in selectGroup is its whole number of seconds, which is exact as the code truncates it. Scores
-- are whole milliseconds, which a float64 holds exactly. The loop of popOnce has one round more than
-- the buffer has entries; every round takes a group out of it, so the rounds are enough. The decimal
-- print of n has n + 1 rounds, and n has fewer digits than that.
--
-- The claims of stale entries have one round more than there are pending entries: each
-- round ends or goes on at a higher id. The consumer's loop, which does not end by itself, is run
-- for a given number of rounds.
--
-- Not modelled: cmd and seed; of the hub the write deadlines and the read limit; of the worker and
-- the reconciler the tickers, and of the worker the delays between tries and the errgroup that runs
-- the loops side by side. The delay after an empty batch is left out. A key has one table for each
-- type, since the service's keys of different types are different texts. Keys expire through steps
-- from outside. Errors inside a script are left out: drainProcessingScript on more entries than
-- Lua can unpack, about 4000, which fails before it writes; commitMatchScript for an empty group,
-- which the worker never forms; and the scripts of Confirm and Dissolve on a record that does not
-- decode in Lua, which the service never writes. The wait of a player that is longer than
-- time.Duration or int32 can hold wraps here; what Go does then is up to the machine, and the
-- rating window is capped in any case.
pub mod Shared
pub mod Model
pub mod Keys
pub mod Redis
pub mod Json
pub mod Effects
pub mod Queue
pub mod Matchops
pub mod Worker
pub mod Cache
pub mod Api
pub mod Reconciler
pub mod Hub
pub mod Config
pub mod Lifecycle
pub mod Store
mod Tests
