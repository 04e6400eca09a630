-- ===== src/Lib.antt =====
-- The Go SDK of Sokel plugins: models of its runtime, of its contracts and of the manifest of its
-- code generator, with their theorems.
--
-- A plugin is a process that registers operations, obtains access to a message broker from the
-- platform over HTTP, reports its contract, answers calls on an assigned subject, and keeps one
-- instance of each event source running for every credential assigned to it.
--
-- Base: lists, byte strings, maps, results and integers that the models share. A string is its
-- list of bytes. A map is an association list; where the code ranges over a map, either the order
-- of the list is any order, or a record `RangeOrder` is a parameter.
-- Contract/Field: `Field`, `Option`, `OneOfVariant` and `ParamType` of contract/contract.go.
-- Contract/Tags: `parseSokelTag`, `toSnake` and `coerceDefault` of contract/contract.go and
-- `toSnake` of internal/gen/util.go.
-- Contract/GoTypes, Contract/Derive: the Go types that reflection sees, and `DeriveFields` of
-- contract/contract.go. The fuel is the depth of calls. The methods of a type and
-- strconv.ParseFloat are parameters.
-- Contract/Vars: `StructToVars` of contract/contract.go. The JSON of a value that is handed on as
-- it is (package encoding/json) is a parameter.
-- Contract/Defaults: `applyDefaultTag` of contract/contract.go and `bindCredential` of
-- sokel/credential.go. The results of strconv are a parameter.
-- Contract/Schema: `Operation`, `OperationOf`, `BuildFields`, `RequireInputs` of
-- contract/schema.go.
-- Contract/Events: `ValidateCommonFields` of contract/event.go; the loops over names and over
-- events are recursions, the pointer `ref` is an option, and its dereference at nil is an error.
-- Sokel/Errors: sokel/errors.go. An error of Go is a chain of wraps around a text.
-- Sokel/OpIds: `mustBusinessOpID` of sokel/sokel.go, with its panics as errors.
-- Sokel/Frames: sokel/emitter.go, `typedSink` of sokel/register_typed.go, and `bufferSink` of
-- sokel/transport_nats.go.
-- Sokel/Plugin: `Plugin`, `New`, `Register`, `find`, `invokeBuffered` and `contract` of
-- sokel/sokel.go, `RegisterOp` of sokel/register_typed.go, sokel/capabilities.go. A handler is a
-- function from the context and the input to what it emits and how it ends, a panic included.
-- Sokel/Dispatch: `dispatchNATS` of sokel/transport_nats.go, from the decoded call to the messages
-- published.
-- Sokel/Triggers, Sokel/Webhook: the context of an event source in sokel/event.go, and
-- sokel/webhook.go. The code of an author is a `Script`: any interleaving of its own decisions
-- with calls of the context, each of which is answered before it goes on.
-- Sokel/Board, Sokel/Sources: `stateBoard`, `credEntry` and `sourceSupervisor` of sokel/event.go.
-- The start function and the stop functions are effects with handles.
-- Sokel/Declared: `DeclareEvent`, `DeclareEventsCommon` and `RegisterSource` of sokel/event.go.
-- Sokel/Files and Sokel/Files/Get: sokel/file.go, uploads and downloads. A platform is any state
-- machine that answers frames. The loops take fuel, one unit for each chunk; a chunk that is not
-- the last has a byte at least, so that more fuel than bytes is enough.
-- Sokel/Identity: `stableInstanceID` of sokel/identity.go, over the files of the directory as a
-- map.
-- Sokel/Workers: `concurrentHandler` and `dispatchConcurrency` of sokel/transport_nats.go, the
-- former as a step relation over deliveries and ends of calls.
-- Sokel/AuthFlows: `SetAuthFlow` of sokel/auth.go and `registerReserved` of sokel/sokel.go.
-- Sokel/Registration and Sokel/Registration/Payload: `registerBody` and `run` of
-- sokel/transport_nats.go: the payload, the answer, the loop of the first registration, with fuel,
-- and then the registrations and the reconciliations of the heartbeat and of the goroutines that
-- the debouncer starts, as separate steps in any order. A happening that cannot come in a state
-- changes nothing there.
-- Sokel/Access: sokel/discover.go, sokel/protocol.go and `resolveAccess` of
-- sokel/transport_nats.go. The enrollment loop has no end in the source; its model takes fuel, one
-- unit for each attempt, so that any fuel above the number of failures before the first success is
-- enough.
-- Sokel/Watchdog: `rediscoverOutcome` of sokel/discover.go and its use by the heartbeat of
-- sokel/transport_nats.go, as a run over observed ticks. Times are in seconds.
-- Gen/Field, Gen/Declaration: `Field` of internal/gen/parse.go, `Manifest` and its parts,
-- `AllOperations` and `Ops` of internal/gen/manifest.go.
-- Gen/Patterns, Gen/Strings, Gen/Names: the regular expressions as automata on bytes, the
-- functions of the packages strings and path that the generator uses, and the Go names of
-- internal/gen/types.go.
-- Gen/Normalize: `normalizeSugar` of internal/gen/manifest.go.
-- Gen/References: `walkFields` and `resolveGoTypeRefs` of internal/gen/manifest.go, on a store in
-- which a slice is an address, since the second walk makes fields share slices. The calls take
-- fuel for their depth. Gen/Problem, Gen/Report, Gen/Check, Gen/Icons, Gen/Transports,
-- Gen/Operations, Gen/EventDecls,
-- Gen/Direct, Gen/Translations, Gen/Validate: `Validate` of internal/gen/manifest.go with the
-- functions that it calls, and `checkIconSyntax` of internal/gen/icon.go. A problem is data in
-- place of its message; a loop with a set of names seen is a recursion with the list of these
-- names.
--
-- Parameters: the JSON decoder and encoder, the answers of the HTTP client, the files beside a
-- manifest, the publication on the broker, and the clock. Not modelled: logging, waits before a
-- retry of a chunk, binding of values to Go types (bindValue) in contract/contract.go, the parser
-- and the renderers of the generator under internal/gen and cmd/sokel-gen, which read and print
-- source text, and the Python and TypeScript SDKs.
pub mod Base
pub mod Contract
pub mod Sokel
pub mod Tests
pub mod Gen
