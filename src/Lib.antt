-- ===== src/Lib.antt =====
-- opencoda serves language models on Kubernetes. A gateway (internal/gateway) takes HTTP requests,
-- checks a bearer token, picks a ready replica of the model's endpoint and passes the request on; it
-- also reads the pods and metrics of each endpoint from the cluster and writes the number of
-- replicas wanted into an annotation, and the demand into the buffer policies. The endpoint
-- controller (internal/controller/endpoint) reads that annotation and keeps the replica pods, whose
-- specs come from an engine (pkg/engine) and a provider of the key-value cache (pkg/kv). The pool
-- controller (internal/controller/pool) keeps the node records of each GPU pool, and the buffer
-- controller (internal/controller/buffer) keeps nodes warm: it plans with the greedy scheduler
-- (pkg/scheduler) and buys and returns nodes through the capacity providers (pkg/capacity). The
-- health controller (internal/controller/health) checks GPU nodes and returns those with a critical
-- fault; a webhook (internal/webhook) admits endpoints.
--
-- Files:
--   Prelude          shared helpers: tests, lists, integers, texts, maps, decimal numbers
--   Api              the records of api/v1alpha1/opencoda_types.go; Api/Cluster the Kubernetes
--                    objects that the program uses; Api/Sample values for the examples
--   Constants        internal/constants/annotations.go
--   Results          errors and the pair (value, error); IsICE of pkg/capacity/errors.go
--   Floats, Clock    interfaces for float64 and for package time
--   Scheduler        pkg/scheduler/scheduler.go and greedy/greedy.go: Fill is Scheduler.Greedy.fill
--   Gateway/Router   Router of internal/gateway/server.go, one function for each method
--   Gateway/Autoscaler, Gateway/Server, Gateway/Token, Gateway/Metrics, Gateway/Sync
--                    the rest of server.go, token.go and k8s.go: handleChatCompletions is
--                    handle_chat_completions, SyncEndpoint is sync_endpoint_amid, and
--                    sync_endpoint where no other goroutine comes in between
--   Gateway/Threads  a completion taken apart at the calls that take the router's mutex, so that
--                    other completions and the synchronisations come in between: Queue, Exact,
--                    Listing, Loop and Served follow it
--   Endpoint         internal/controller/endpoint/endpoint_controller.go: Desired, Count,
--                    ColdStart and Build are its methods, Reconcile puts them together
--   Engine, Kv       pkg/engine, pkg/engine/vllm, pkg/kv, pkg/kv/lmcache, pkg/kv/null
--   Capacity         pkg/capacity: provider.go, registry.go, cache.go, static/static.go
--   Capacity/Aws, Capacity/Gcp
--                    aws/aws.go and gcp/gcp.go over interfaces of their SDKs' clients;
--                    Capacity/Memory is what a provider changes of itself
--   Capacity/Bootstrap, Capacity/Prices
--                    bootstrap/bootstrap.go and pricesync/pricesync.go
--   Capacity/Contract
--                    what the controllers take from every provider, as a record of laws that
--                    a client takes as an argument
--   Capacity/Factories
--                    internal/capacityfactory/register.go
--   Pool             internal/controller/pool/pool_controller.go
--   Buffer           internal/controller/buffer/buffer_controller.go
--   Health           internal/controller/health/health_controller.go
--   Webhook          internal/webhook/codaendpoint_webhook.go
--   Nodeagent        internal/nodeagent/cachefill/daemon.go
--   Commands         cmd and cli: Cli is the command coda, Gateway, Manager and NodeAgent what the
--                    three programs are made of when they start
--   E2e              test/e2e: fakevllm, whose page the gateway scrapes, and loadgen
--   Flows            what passes from one component to another: Replicas and Ice follow a value
--                    through several of them, and Replica takes a pod from the controller that
--                    builds it to the gateway; Faults follows a faulty node
--
-- Conventions. A Go string is a list of bytes. An int is an integer without bound: overflow of the
-- 64-bit int is not modelled; counters that only grow from zero are natural numbers. A time is a
-- number of nanoseconds. A float64 is its bit pattern, and its arithmetic is the interface
-- FloatOps: no theorem assumes anything of it but, where it says so, that comparing costs is a
-- strict weak order of the pools given. A map is an association list, and the order in which a range meets its
-- entries is an argument `visit`. A mutex makes each method one step; the AWS and GCP providers
-- have none, and a method of theirs is one step all the same. SHA-256, JSON, parsing of times and
-- durations, HTTP and the API server are arguments or records of operations over a state of their
-- own; what other clients do between two calls of one Reconcile is not modelled. The loops of the
-- program run over a list or count up to a bound, so that each is a structural recursion over the
-- list or over the rounds that are left. The one loop that may not end, over the reads of the
-- price catalog in syncOnce, takes a number of rounds and says whether it ended within them.
--
-- In Gateway/Threads a synchronisation is the one step in which it registers the endpoint, since
-- it writes to the router nowhere else. SyncEndpoint takes the mutex of the router three times, and
-- sync_endpoint_amid has what other goroutines do to the router between them as arguments;
-- sync_endpoint, of which the loop RunAutoscalerLoop is made, is the case that they do nothing.
--
-- Two panics of the controllers are modelled: at the first offer of an empty list, and in Provision of
-- the AWS provider for an instance without a placement. A panic of a
-- Provision ends the pass of the buffer controller.
--
-- Not modelled: logging, Prometheus collectors, generated code, the interface of pkg/weights, which
-- nothing implements, the parsing of flags, the connection to the cluster, signals, and the main of
-- the webhook, which only registers its handler.
pub mod Prelude
pub mod Api
pub mod Floats
pub mod Results
pub mod Scheduler
pub mod Constants
pub mod Gateway
pub mod Engine
pub mod Kv
pub mod Clock
pub mod Endpoint
pub mod Capacity
pub mod Pool
pub mod Buffer
pub mod Health
pub mod Webhook
pub mod Flows
pub mod Nodeagent
pub mod E2e
pub mod Commands
