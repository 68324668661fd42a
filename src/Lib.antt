-- ===== src/Lib.antt =====
-- golang-core: a model of parts of the Go library of this repository, and what is proved about it.
--
-- The parts and their files. A method that changes its receiver and may fail is a function from the
-- state to a result and the next state (Prelude/Exec.antt); what it wrote before an error stays written.
--
-- * iterator/ -> Iterator.antt (the interface and Materialize), Iterator/Reader.antt (ReaderIterator,
--   with an io.Reader given by the bytes that its reads give and the way it ends) and
--   Iterator/Consumable.antt (PeekableConsumableImpl). The abstract view is the list of the items to
--   come: Iterator/Consumable/Refinement.antt proves it for every wrapped iterator that keeps the
--   promises of the record Delivers, and Iterator/Reader/Delivery.antt proves them of ReaderIterator.
-- * tokenizer/ -> Tokenizer.antt (State, read, advance and the loop shared by the parsers),
--   Tokenizer/Token.antt, Tokenizer/Parse.antt (parseToken and each parser), Tokenizer/Stream.antt
--   (HasNext, Next, Err, Tokenize). It reads through the two iterators above. Tokenizer/Spec.antt is
--   the grammar that the parsers are compared with: functions on lists without state, lookahead or fuel.
--   Tokenizer/Refinement.antt and its children compare single tokens, Tokenizer/Runs.antt whole sources.
-- * storage/providers/sync.go -> Storage/Sync.antt (each call over all storages, Copy, Move),
--   Storage/Sync/Write.antt (Write through a temporary file) and Storage/Sync/Multipart.antt. The wrapped
--   storages are a list of states of any implementation of Storage (Storage.antt); what they and the
--   operating system promise are the records Promises and Keeps, which Storage/Sync/Tests.antt fills.
-- * cache/ -> Cache/Memory.antt (provider/memory.go), Cache/Impl.antt (impl.go), Cache/Proxy.antt
--   (proxy.go). The clock is an argument of the calls that read it.
-- * retry/ -> Retry.antt (the loop, over an operation, a context and a clock that are arguments) and
--   Retry/Status.antt (which status codes and methods are tried again). storage/retry_option.go, which
--   runs the operations of a storage in that loop -> Storage/Retrying.antt; storage/impl.go, the
--   operations of a storage over a provider -> Storage/Impl.antt. Retry/Success.antt and
--   Storage/Impl/Laws.antt say what it means that they return no error.
-- * promise/ and either/ -> Promise.antt (the state, the channels in a heap and each call that holds the
--   mutex), Promise/Getter.antt (Get as the steps between which others may act) and Promise/System.antt
--   (any number of callers, interleaved in any order). A channel is Promise/Channels.antt, where a send
--   or a close that would panic or wait is a fault. Promise/Effects.antt and its children say what each
--   call does, Promise/Invariant.antt what holds in every state that is reached.
-- * future/ -> Future.antt: the callers of its promise and the executor, which takes the function or refuses
--   it and runs it at some later time, interleaved in any order. A body that never returns or panics
--   is a function that the executor has not run.
-- * kafka/consumer.go -> Kafka.antt (processRecord and handleFailedRecord, over the loop of retry/) and
--   Kafka/Batch.antt (the records of a poll and Consume). The client, the protocol and the handlers are
--   the functions of the record Setup.
-- * pool/ -> Pool.antt (Start, Stop, ExecuteTask) and Pool/System.antt (the workers and the callers,
--   interleaved in any order). A send hands a task to a worker that waits, as a channel without a buffer does.
-- * proto_parser/ -> ProtoParser.antt (the tree that it reads, and the models), ProtoParser/Convert.antt
--   (fields and entries) and ProtoParser/Messages.antt (messages, enums, files and Parse). The parser of
--   the text is third-party; ProtoParser/Names.antt and ProtoParser/Supported.antt say what is compared.
-- * flow/ -> Flow.antt (Validate, Run, runAction and its condition, over any runner of one action),
--   Flow/Evaluate.antt (templates, scripts, arguments and environment), Flow/Command.antt (runActionCommand)
--   and Flow/Runners.antt (the other runners, and run_runner, which is the runner of the code). Flow/Steps.antt
--   and Flow/Success.antt say how a flow and a command end.
--
-- Numbers are natural numbers; offsets, columns and lines of the tokenizer wrap at 2 ^ 64, and a count
-- that may be negative is an integer. Texts are lists of bytes.
--
-- Fuel. The tokenizer's loops and Materialize take fuel, and an error `out_of_fuel`, which the code does
-- not have, stands for running out. Each round of a loop reads a byte, so the length of the source is
-- enough for the loops and two rounds more for Materialize. The endless loop of processRecord takes as
-- many rounds as there are attempts, where their number is limited; the theorems about whole files
-- include that the run ends with a result. The rounds of fillBuffer and of the retry loop are counted by
-- the code.
--
-- Not modelled: logging, metrics and the text of error messages; readers that fail in the middle, in the
-- theorems about whole files (the definitions cover them); goroutines and locks outside promise/ and pool/,
-- since a call that holds a mutex throughout is one step; negative durations; ReadDir of the sync
-- provider; the multipart calls of storage/impl.go, which it passes on; the Go arrays behind slices; and the other packages: network servers, database, cloud and
-- mail clients and the code generators are glue around libraries that are not part of the repository;
-- maps/, control_flow/, lazy/, preloader/, poll/ and scheduler/ have no model either.
pub mod Prelude
pub mod Iterator
pub mod Tokenizer
pub mod Cache
pub mod Storage
pub mod Retry
pub mod Promise
pub mod Pool
pub mod Kafka
pub mod Flow
pub mod ProtoParser
pub mod Future
