-- ===== src/Lib.antt =====
-- The core of MBootCore: the Sahara protocol, by which the host loads a programmer into a device, the
-- chunk engine of the Firehose protocol, by which data then goes to it, the partition table of its
-- flash, the jobs that are run on it, the ELF files that programmers are, the graph of packages,
-- workflows, and the sessions of clients with a device.
--
-- Prelude holds the shared names, list operations over the native numbers and Boolean tests. Domain
-- is lib/include/mbootcore/domain/Error.hpp: an operation that can fail gives a `Result`, whose third
-- case `stuck` stands for undefined behaviour, an exception, a callback that never answers, or a loop
-- that has used up its rounds. Bytes are the little-endian integers in buffers.
--
-- State is the table-driven machine of lib/src/core/state/StateMachine.cpp. Sahara.Packets, Serializer
-- and Parser are the packets of lib/src/core/protocols/sahara and their wire format; Sahara.Machine is
-- SaharaStateMachine.cpp, with its table row by row; Sahara.Device holds the device information of
-- lib/include/mbootcore/domain/Types.hpp. Sahara.Protocol is SaharaProtocol.cpp: `handshake` is
-- `handshake_run`, with `performV2Discovery` as `perform_v2_discovery`; `uploadProgrammer` is
-- `upload_programmer`; `reset` is `reset_run`. They call the codec through `send_packet` and
-- `receive_packet`, and the machine through `fire_event`. The transport is given by what its reads and
-- writes will answer, in order; what is written is recorded.
--
-- Firehose.Chunk is ChunkEngine.cpp, with the answers of its callbacks given in the same way, and the
-- moment at which another thread cancels.
--
-- Gpt.Arithmetic, Gpt.Header, Gpt.Entries and Gpt.Ranges are parts of lib/src/gpt/GPTParser.cpp and
-- GPTWriter.cpp: the checks on numbers, the header and the entries as they are written and read, with
-- their checksums, and the predicates on sector ranges. Gpt.Parser puts them together as
-- `parsePrimary` does, over a device of which it asks the storage information and the memory, and
-- Gpt.Parser.Whole as `parse` (`parse_both`) and `parseBackup` do. zlib's `crc32` is a parameter; all
-- that is asked of it is that its results fit 32 bits. Gpt.Writer has the write
-- operations of GPTWriter.cpp over a device. Gpt.Manager with Gpt.Manager.Queries and
-- Gpt.Manager.Recover is PartitionManager.cpp, which reads the table by `parse_both` and repairs it by
-- the writer; Gpt.Names has the names in UTF-8.
--
-- Jobs is lib/src/job over jobs that are given by what their methods do to a world of their own:
-- Jobs.Recovery are the policies of RecoveryPolicies.cpp, Jobs.History is JobHistory.cpp, Jobs.Progress
-- is ProgressAggregator.cpp, Jobs.Pipeline with Jobs.Pipeline.Run is JobPipeline.cpp, which keeps a
-- history and an aggregator, and Jobs.Scheduler is JobScheduler.cpp, which runs a pipeline for each job
-- of its queue. What other threads do to a pipeline while it runs is a list of signals. The
-- specifications are those of Jobs.Pipeline.Saga, of a log of the same calls in Jobs.History.Window, and of
-- the jobs one after another in Jobs.Scheduler.Order.
--
-- Elf is lib/src/elf: Elf.Reader and Elf.Parser are ElfParser.cpp, Elf.Segments the checks of the
-- segments there and in ElfValidator.cpp, and Elf.Image is MemoryImageBuilder.cpp, which takes the
-- file that the parser returns. `std::sort` is a parameter of the builder; of it is asked that it
-- keeps the elements and puts a least one first.
--
-- Dsp.Graph is the graph of packages of lib/src/dsp/DSPDependencyGraph.cpp. `topoSort` takes as many
-- rounds as it has packages and one more, which is enough since each takes up another package.
--
-- Workflow is lib/src/workflow: Workflow.Types has the state, the history and the counts of progress,
-- Workflow.Recovery is WorkflowRecovery.cpp, and Workflow.Engine with Workflow.Engine.Run is
-- WorkflowEngine.cpp, over steps that are given by what their methods do to the context. As for the
-- pipeline, a list of signals says what other threads do. Its specifications are the script of
-- Workflow.Engine.Script and the undoing of steps in Workflow.Engine.Undone. `executeStep` recurses
-- on the turns that its options leave it.
--
-- Session.Device is lib/src/session/DeviceSession.cpp over a device that is given by what its methods do
-- to a world of its own; both `executeWithStateCheck` and `executeReadWithStateCheck` are `execute`.
-- A list says, for each call of the device, whether another thread cancels while it goes on.
-- Observers are told of events and do not call the session. Session.Commands has the calls of a client,
-- Session.Accounts what the counters are to say, by how the names of operations begin (Session.Kinds),
-- and Session.Serves the device as a client calls it without a session.
--
-- Examples holds concrete runs: packets, sessions, an engine, a disk, its partitions, jobs, an ELF file, a graph,
-- workflows and a session with a device.
--
-- Machine integers: fields of packets and tables are natural numbers, which the theorems bound by the
-- width of their type where that matters; wrap-around is written out. Loops over the transport's
-- answers recurse on the list of answers. `stream_loop` recurses on a number of rounds: each sends a
-- byte or more if the chunk size is not 0, so that one for each byte and one to end are enough. The
-- loops over entries recurse on the rounds that are left, and the scheduler's on rounds of which each
-- serves a job.
--
-- Not modelled: log output, timeouts, the text of packets, names in UTF-16, and all other parts of the
-- repository: the XML of Firehose, the concrete jobs, the search for a cycle among packages and
-- their installation, boot pipelines, the built-in steps of workflows, the manager and the recovery of
-- sessions, firmware files, transports, plugins, security, discovery and the applications.
pub mod Prelude
pub mod Domain
pub mod Bytes
pub mod State
pub mod Sahara
pub mod Firehose
pub mod Gpt
pub mod Jobs
pub mod Elf
pub mod Dsp
pub mod Workflow
pub mod Session
pub mod Examples
