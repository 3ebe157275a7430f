-- ===== src/Lib.antt =====
-- The Generic Block Explorer: a Go service that copies the jet drops of an Insolar platform into a
-- database and shows them through an HTTP API.
--
-- A pulse is a tick of the platform. In each pulse the ledger is divided into jets, the leaves of a
-- binary tree, named by strings of the bits 0 and 1; the root's name is empty. A jet drop is what one
-- jet holds of one pulse. The extractor reads pulses from the platform, the transformer makes
-- canonical jet drops of them, the processor saves these and reports each to the controller. The
-- controller decides when the jet drops of a pulse are complete, walks the chain of complete pulses
-- and asks the extractor again for what is missing. The API reads what the storage has.
--
-- The parts and their files:
--
-- Prelude: tests, lists, maps, integers and the library names that the other files share. Numbers
-- are native; an int64 is an integer, whose bounds are stated where a parser or a printer needs
-- them; a string and a byte slice are a list of bytes; a map is an association list. A `range` over it
-- meets the entries in the order of the list where the theorems are about every list; where the order
-- in which the code itself fills a map would show, in Transformer, the orders are parameters.
--
-- Go: strconv.ParseInt and FormatInt in base 10, strings.Split, strings.Contains, strings.TrimSpace,
-- url.QueryUnescape and base64.
--
-- Models: etl/types/types.go and etl/models/models.go. Models.JetDropId is JetDropID with
-- NewJetDropIDFromString and ToString; Models.Siblings is JetDrop.Siblings and GetJetIDParents of
-- etl/storage/helper.go.
--
-- Interfaces: the storage of etl/interfaces/interfaces.go as the controller and the processor use
-- it, over a state of its own, with PrevLaws, what the pulse loop relies on of one query, and
-- SavedLaws, what the processor and the controller together rely on of the writes.
--
-- Platform: what the program reads of the platform's messages, with PlatformPulseData.
--
-- Extractor: etl/extractor/platform_impl.go. Records is retrieveRecords, a loop of portions over the
-- streams of a client, with the number of portions as fuel; Pulses is retrievePulses as a machine
-- of the extractor with its threads and its retrievals; Takers is the counter of workers with each
-- atomic addition a step of its own. In Pulses, too, a thread takes a worker in two steps: the addition
-- with the comparison, and the subtraction when the maximum was passed. A cancelled context is met at
-- each of the places that look at it. The fuel that a retrieval needs is counted by `budget`.
--
-- Exporter: etl/exporter. GetNextPulse over rounds of a repository, with its query in Storage.Joined
-- (the join is a parameter); Linked is the stream, Lifetime the server's Start and Stop.
--
-- Connection: etl/connection, and the plugin of etl/dbconn that stops the program when the database
-- is lost. A time is its nanoseconds; a duration is an int64 with its wrap-around.
--
-- Converter: instrumentation/converter/platform.go.
--
-- Transformer: etl/transformer. sortRecords with its maps, Records (transferToCanonicalRecord and
-- getRecords), Drops (getJetDrop and Transform) and MainNet, the goroutine of mainnet_impl.go. The
-- name of an id and the parts of a jet's id are parameters, and so are the orders in which the two
-- `range` loops of sortRecords meet the entries of their maps (Runtime).
--
-- Controller: etl/controller. Completeness is pulseIsComplete; MissedData is misseddata.go,
-- with its goroutine and Stop in MissedData.Stopping;
-- Register is the register of jet drops with SetJetDropData, eraseJetDropRegister, reloadData and
-- cleanJetDropRegister; Sequence is pulseSequence and what Start does. A panic of Go's runtime is
-- `none`. What is asked of the storage and of the extractor is a list of calls.
--
-- Processor: etl/processor/processor.go. Processor.process saves a jet drop and reports it;
-- Processor.Workers is the machine of the feeding goroutine, the workers and Stop.
--
-- Storage: etl/storage/storage.go. A query is its conditions, its order and its
-- page; gorm and the database are a parameter. Links are the loops of GetPulses, Filters the
-- filters and Index the index of a record.
-- Storage.Writes holds the writes, whose statements and commit are parameters; a transaction that ends
-- with an error leaves the database as it was. Storage.Service fills the interface of the controller
-- with both, and Storage.Kept is about what the writes leave in the table of jet drops.
--
-- Api: api/handlers.go and api/mappers.go. The checks are in Api and Api.References, the handlers in
-- Api.Handlers with its children Search, Lifelines and JetDrops (the jet drops by jet id, with
-- the links to the next and previous ones). The storage is an interface, which Storage fills; the
-- platform's ids and references are parameters.
--
-- System: the processor and the controller's two loops over one storage and one register, as a
-- machine whose steps interleave in any order. Quiet is about the steps that complete no pulse, Saved
-- and Sound about all; Restart begins with `Start`, and Pipeline feeds the machine from the transformer.
--
-- Tests: the theorems at concrete inputs.
--
-- A lock makes its block one step. The clock is a function of the round, and what other goroutines
-- do between the rounds of a loop is an argument: jet drops that arrive while the register is
-- looked through, changes of the database between the rounds of the pulse loop. Every loop is a
-- recursion on the list or the number that it counts down, but for the extractor's retrieval.
--
-- Not modelled: gorm, gRPC and echo, which are third-party; logging, metrics, migrations, the wiring
-- of cmd and the generated code; of the configuration, only what the connection reads. The text of an
-- error is left out where it only repeats its cause.
pub mod Prelude
pub mod Go
pub mod Models
pub mod Platform
pub mod Converter
pub mod Interfaces
pub mod Extractor
pub mod Exporter
pub mod Connection
pub mod Transformer
pub mod Controller
pub mod Processor
pub mod Storage
pub mod Api
pub mod System
pub mod Tests
