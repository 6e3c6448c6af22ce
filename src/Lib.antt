-- ===== src/Lib.antt =====
-- A model of the parts of scalpel-cli that keep state and decide: its HTTP client over all
-- protocols, the analyses of taint and of race conditions, the crawl, the in-memory knowledge graph,
-- the message buses, the results pipeline and the normalisation of JSON bodies, with the theorems
-- that make them correct.
--
-- Parts of the program and their files:
--   pkg/customhttp/h2client.go, the HTTP/2 client of the race condition tests, is Http2. `H2Client` is
--   Client and `h2StreamState` is Stream (Types); Streams has the map of streams; Conn has NewH2Client,
--   Connect, IsIdle, shutdown and the start and end of a stream; Flow has the flow control of both
--   directions and SETTINGS; Frames has processFrame and the read loop; Writes has the queued writes
--   and the write loop; Sending has encodeHeaders and sendData; Calls has Do, PrepareRequest,
--   ReleaseBody, WaitResponse, sendPing and Close. The other files prove: Invariant and Steps the
--   invariant of a connection, Chunks, SendLoop, SendEnds and Padded what sendData does, HeaderBlocks
--   how headers are cut, Responses, Isolation and Errors what frames do, Lifecycle how connections end.
--   pkg/customhttp/client.go, the client above the protocols, is HttpClient: Redirects has isSameOrigin,
--   prepareNextRequest and ensureBodyReplayable; Pools the connections of each host, closeClient,
--   evictIdleConnections and CloseAll; Retries shouldRetry and one attempt, and Retries/Loop
--   executeWithRetries, and Retries/Dropped has what a failed attempt
--   leaves; Challenges handleAuthentication; Requests addCookies, storeCookies and
--   handleRedirect, and Requests/Rounds doInternal and Do.
--   internal/knowledgegraph/knowledgegraph.go, with Node and Edge of api/schemas/knowledge_graph.go, is
--   KnowledgeGraph: AddNode, AddEdge, GetNode, GetEdge, GetNeighbors, GetEdges; History has
--   QueryImprovementHistory.
--   internal/agent/cognitive_bus.go is CognitiveBus: Post, whose Add ahead of the select is a step of
--   its own, and Acknowledge; Subscribers has Subscribe, and
--   Closing Shutdown.
--   internal/analysis/active/timeslip is TimeSlip: Types; Oracle has SuccessOracle; Statistics
--   prepareAndAggregate and calculateStatistics; Heuristics analyzeResults and its heuristics; Samples
--   sampleUniqueResponses; Strategies determineStrategies, Analyze and reportFinding.
--   internal/analysis/active/taint is Taint: Types; Rules has isContextValid, isErrorPageContext,
--   checkSanitization and ValidTaintFlows; Static correlateWithStaticFindings; Pans scanner.go;
--   Correlation processEvent and its handlers, registerProbe and executeCleanup; Queue enqueueEvent,
--   fetchAndEnqueueOAST, the workers and shutdown; Probing the canaries and payloads, Probing/Urls,
--   Probing/Storage and Probing/Session the probes and their order. Under them, Reports, Expiry, Matches,
--   Luhn, Steps, Drained, Late and Tracking have the proofs.
--   internal/discovery is Discovery: the scope of scope.go and normalizeAndValidate; Crawl has
--   processAsset, dispatchTasksForAsset, crawlPage, worker and the end of Start, on the Graph of
--   KnowledgeGraph; Normal, Invariant, Steps, Ends and Recorded have the proofs.
--   internal/analysis/static/javascript/state.go is JsTaint; Joins has what Merge joins.
--   internal/results is Results: enrich.go, pipeline.go and normalize.go; Order has what a report
--   holds; Results/Providers the Store of providers/providers.go, and Results/Providers/Listing what its List
--   returns.
--   internal/evolution/bus/bus.go is EvolutionBus, on the state and the deliveries of CognitiveBus.
--   internal/jsoncompare/service.go, with Options of types.go, is JsonCompare: normalize with its
--   helpers; Compare has CompareWithOptions and the options for go-cmp.
--   Common has the numbers, lists, maps and tests that these share. HttpClient
--   takes what a call of an HTTP/1, 2 or 3 client comes to as an argument, Discovery records
--   what it finds in the graph of KnowledgeGraph, EvolutionBus shares the deliveries of CognitiveBus,
--   and the other parts do not call each other.
--
-- How the code is modelled. A method that holds its lock throughout is one function on the state;
-- one that gives the lock up, or waits, is one function for each section between, and the step
-- relations of Http2/Steps, HttpClient/Pools/Conservation, CognitiveBus/Safety/Steps,
-- EvolutionBus/Safety, Taint/Queue/Steps and Discovery/Steps put such sections in any order. The
-- sections of `shutdown` are steps of their own, but follow each other at once where a loop shuts
-- its connection. The read loop processes a frame as one step, PrepareRequest encodes and queues its
-- HEADERS as one step, and a send on the write channel that finds it full lets the write loop take
-- one item, whose write is taken to succeed. A stream whose number is given again after the wrap of
-- uint32 is left out of the state. closeClient takes a client out of its map and closes it as one
-- step. A stream that leaves the map stays in the state as a detached object, since callers hold it.
-- Where several cases of a select are ready, an argument says which is taken; outcomes of I/O, the
-- clock, random numbers and fresh identifiers are arguments too. Times are numbers. A Go map is an
-- association list, so a range over a map has the list's order.
--
-- Numbers are naturals, or integers where the source lets them fall below 0, with the wrap of uint32
-- and int64 written out where a conversion or a sum can reach it. The loop that cuts a header block
-- has the block's length as its bound, which is enough since each round takes a byte
-- (Http2/HeaderBlocks). The search for a free key of a JSON object has the number of keys as its
-- bound (JsonCompare/Keys). sendData runs for as many turns as it is given; Http2/SendEnds says how
-- many are enough.
--
-- The crawl of one worker runs for as many tasks as it is given; Discovery/Ends shows that there is
-- a number that is enough.
--
-- executeWithRetries has the number of retries and one more as its bound, and doInternal two
-- requests for each redirect that is allowed and two more: HttpClient/Retries/Attempts and
-- HttpClient/Requests/Ends show that they are enough.
--
-- numbered_key of the Library of JsonCompare is baseKey and fmt.Sprintf together.
--
-- Parameters: net/url, net/http, the cookie jar, base64, the backoff, the credentials provider and
-- CheckRedirect (Net and Config of HttpClient), the floats of TimeSlip and what its strategies come
-- to, the regular expressions and texts of the taint analysis (Texts) and what its probes ask of
-- net/url, encoding/json and fmt (Web), HPACK and the text functions of the encoder (Codec), the
-- padding strategy, decompression, the decoding of an attempt's properties (Decoder), and what the
-- JSON heuristics ask of regular expressions, of other packages and of floats (Library and Comparing
-- of JsonCompare). The order that sort.Slice gives to equal elements is taken to be one of a stable
-- insertion.
--
-- Not modelled: dialling and TLS, the timers of the ping loop, the framer's parsing, logging, and
-- the other parts of the program (the HTTP/1 client, the evolution engine but for its bus, the other
-- analysers, the browser, the stores and the commands).
pub mod Common
pub mod Http2
pub mod KnowledgeGraph
pub mod CognitiveBus
pub mod JsonCompare
pub mod HttpClient
pub mod TimeSlip
pub mod Results
pub mod EvolutionBus
pub mod Taint
pub mod Discovery
pub mod JsTaint
