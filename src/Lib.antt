-- ===== src/Lib.antt =====
-- APM Server: authentication of agents, the handling of their requests and of the events in them,
-- the aggregation of metrics, the dropping of unsampled transactions, and tail-based sampling.
--
-- A request passes through the middleware (beater/middleware), which asks the authenticator
-- (beater/auth) whether the client is let in and puts the authorizer into the request's context
-- (beater/request). The lines of a request's body (decoder) are decoded to batches of events
-- (processor/stream). These reach the aggregators (x-pack/apm-server/aggregation), which measure
-- them and append metricsets to them, and the tail-based sampler (x-pack/apm-server/sampling),
-- which samples root transactions in trace groups and keeps the other events of a trace in its
-- storage until the trace is decided.
--
-- The files:
-- - Prelude: shared names, Boolean tests, lists over native numbers, and association lists for Go's
--   maps.
-- - Auth: beater/auth and elasticsearch/security_api.go. Auth.Header is ParseAuthorizationHeader
--   and the decoding of base64; Auth.Anonymous is anonymous.go; Auth.ApiKey is apikey.go with its
--   cache; Auth.Authenticator is NewAuthenticator, Authenticate and the authorizers.
--   Auth.ApiKey.Caching, Auth.Anonymous.Access and Auth.Authenticator.Decision hold their theorems.
-- - Request: beater/request. Request.Result is result.go, Request.Context is context.go; the calls
--   that Write makes of the response writer are appended to a list. Request.Context.Writes holds
--   the theorems.
-- - Middleware: the middleware of beater/middleware for authentication, the kill switch, panics and
--   timeouts. A handler takes a context to a context, or panics with the context that it has
--   reached. In the recovering middleware the response writer may panic too, on any call.
--   Middleware.Gate and Middleware.Recovery hold the theorems.
-- - Model: the fields of model/ that the modelled code reads or writes (Model.Event), and float64
--   as a parameter (Model.Float64).
-- - TxMetrics: x-pack/apm-server/aggregation/txmetrics/aggregator.go. TxMetrics.Metrics is the
--   state of one period: the map from hashes to buckets of pointers, which are indices into the
--   slots, and updateTransactionMetrics as its search under the read lock and its second phase
--   under the write lock. TxMetrics.Metrics.Groups has the invariant and the view of the groups as
--   a map from keys to histograms; Recording, Allocation and Updates show what an update does to
--   that view, Interleaving what its second phase does after other updates. TxMetrics.Key is the
--   aggregation key, its equality and its hash. TxMetrics.Aggregator is the configuration,
--   ProcessBatch, AggregateTransaction and publish, with theorems in Batches, Overflow, Publishing
--   and ColdStart; Publishing.Described says what the metricset of a group holds.
-- - SpanMetrics: x-pack/apm-server/aggregation/spanmetrics/aggregator.go. SpanMetrics.Buffer is the
--   buffer with storeOrUpdate; Bounds says what one call does, Gather what a sequence of calls
--   does. SpanMetrics.Aggregator is ProcessBatch, processSpan, processDroppedSpanStats and publish;
--   Measured describes a batch as a list of measurements, independently of the buffer,
--   Measured.Batches relates the two, and Measured.Published follows them to the end of the period.
-- - Sampling: x-pack/apm-server/sampling. Sampling.Policies is the validation of the local sampling
--   configuration in config.go. Sampling.ItemHeap is the heap of reservoir.go with Go's
--   container/heap, Sampling.Reservoir the reservoir, Contents and Bounds what their operations do.
--   Sampling.Groups is the trace groups of groups.go and getTraceGroup, with theorems in Lookup and
--   Kept; Sampling.Groups.Traces is sampleTrace and finalizeSampledTraces, with theorems in Sampled
--   and Finalized.
-- - Sampling.Storage: x-pack/apm-server/sampling/eventstorage. Storage is the ReadWriter of
--   storage.go over Badger, Storage.Sharded is sharded.go; Storage.JsonCodec is jsoncodec.go;
--   Decisions, Events and RoundTrips are what is read of what has been written. Sampling.EventStore
--   is the interface that the processor uses, with its laws, and EventStore.Sharded gives it the
--   sharded storage. The laws speak of the events that the codec decodes as they were encoded: with
--   JSON, not those with a coldstart, whose value comes back at another address, and not those with
--   custom numbers, which come back as float64.
-- - Sampling.Processor: x-pack/apm-server/sampling/processor.go, over any EventStore. Processor is
--   ProcessBatch and Stop, with theorems in Accounting (one event), Ledger (the loop) and Batches.
--   Processor.Decisions is, of Run, what is done with a decision and at the end of an interval,
--   with theorems in Published (what has been stored before the decision) and Late (what comes
--   after it).
-- - ModelProcessor: model/modelprocessor. ModelProcessor.DropUnsampled is dropunsampled.go: the
--   loop that replaces an event by the batch's last one; Kept says which events are left.
-- - Decoder: decoder. Decoder.LineReader is line_reader.go over bufio.Reader, with theorems in
--   Lines (one slice of the buffer), Stream (all lines of a stream) and Returns; Decoder.Ndjson is
--   stream_decoder.go.
-- - Stream: processor/stream. Stream.Results is result.go, Stream.EventType is identifyEventType,
--   Stream.Batches is readBatch and the loop of HandleStream, with theorems in Bounds and Ends;
--   Stream.Batches.Decoding is the shape of the decoders of model/modeldecoder/v2/decoder.go, which
--   decode one line each.
-- - Tests: concrete parameters and inputs, tests, and the theorems applied to them.
--
-- Parameters stand for code outside of the repository: float64, the histograms of go-hdrhistogram,
-- the digest of xxhash, the cache of go-cache with its documented laws (an entry is found after it
-- is set, setting adds at most one entry), Badger's transactions with their documented laws (a
-- transaction reads its own writes, what is committed is visible to the next one, an iteration
-- passes the keys with its prefix), random numbers, the JSON libraries, net/http's response writer,
-- and the Elasticsearch server as a function from requests to answers. The validation and mapping
-- of decoded events in model/modeldecoder, which are not modelled, are parameters too. A
-- bufio.Reader is its unread bytes with the error after them, which comes in a call of its own.
-- Go's int and int64 are natural numbers or integers, since the code does not come near their
-- bounds; a uint64 keeps its wrap-around. Times are nanoseconds since the zero time, from the zero
-- time on, all in one location, which Go's == on aggregation keys compares too. A Go map is an
-- association list, visited in the order of the list. A nil pointer that is dereferenced and an
-- index out of range are panics: none, or a constructor of its own.
--
-- These recursions run on fuel: the loop of NewDropUnsampled on the number of the batch's events,
-- as every iteration passes an event or removes one; the loop of ProcessBatch likewise; the moves
-- up and down in a heap, on the number of its items, as an index at least doubles going down and
-- halves going up; the loop of ReadLine, on two more than the number of unread bytes, as every
-- iteration but the last two reads a byte; the loop of HandleStream, for which its theorem says how
-- much is enough; and the digits of a uint64 in hexadecimal, which are at most 16.
--
-- Not modelled: goroutines, timers and channels of Run and Stop; locks, so that one operation is
-- one step, but for the two phases of updateTransactionMetrics; the expiry of cached and of stored
-- entries; logging and monitoring; the exchange of sampled trace IDs between servers; the metadata
-- of a stream, the fields of events in the decoders, OpenTelemetry and Jaeger; rate limiting, agent
-- configuration, source maps and indexing.
pub mod Prelude
pub mod Auth
pub mod Request
pub mod Middleware
pub mod Model
pub mod TxMetrics
pub mod SpanMetrics
pub mod Sampling
pub mod ModelProcessor
pub mod Decoder
pub mod Stream
pub mod Tests
