-- ===== src/Lib.antt =====
-- Models of the L8Collector service (go/collector), with the theorems that make its core correct.
--
-- The service starts a HostCollector for each host of a target. A HostCollector owns one collector for
-- each protocol, a JobsQueue of periodic jobs, and a boot sequence of five stages, each of which adds
-- the jobs of a group of pollarises (polling profiles) and ends when those jobs have completed. Its loop
-- takes the first job of the queue that is due, executes it, compares the result with the last one by a
-- hash, hands a changed result to the aggregator, and moves the boot sequence on.
--
-- Files:
--   Prelude: shared names, Boolean tests, lists, maps (Dict), signed integers (Int), and Outcome, the
--     result of Go code that may panic.
--   Types: the messages of l8pollaris, with the fields that the collector uses.
--   Cadence: go/collector/service/JobCadence.go, and cloneCadence.
--   Queue: go/collector/service/JobsQueue.go. The jobs are shared by pointer, so they live in a Heap and
--     the queue's list and map hold addresses: State is the data, Adding and Taking the methods.
--     Visiting, Selection and Rotation are about Pop, Fairness about many Pops, Invariant and Insertion
--     about list and map, Closing and Expediting about Shutdown and Expedite.
--   Change: go/collector/service/hash.go, MarkStart, MarkEnded and jobHasChange.
--   Host: go/collector/service/HostCollector.go, BootSequence.go and StaticJobs.go. State is the data,
--     Stage a boot stage, Loop the rounds of `collect`, Life start, update and stop. Ready, Steps,
--     Sequence and Progress are about the boot sequence, Working, Statics, Executing and Collecting
--     about whole rounds, Halting about stop and wake-ups, and Running is the sequence of rounds.
--   Service: go/collector/service/CollectorService.go and ExecuteService.go. Ready is about a host that can
--     be started and stopped, Polling about its start and its rounds, Posting and Stopping about Post,
--     Routing about jobs that are executed on demand.
--   Text: the functions of Go's package strings that the code uses, on native strings.
--   Kube: go/collector/protocols/k8sclient. Value is a decoded JSON value and Gvr a resource type. Cache is
--     Cache.go with FieldValue of Result.go, Cascade is Cascade.go and the cycle of Reaper.go. Keys and
--     Store are about the cache as a map, Sweep, Removal and Deployment about what the cascades take out
--     of it (with Rounds), Naming about the texts of resource types. Watching is ensureWatching with the
--     maps of SharedRuntime.go, and Starting about it. Spec is Spec.go, and Defaults about it. Links is
--     GvrLinksMap.go, and Identifiers about it. Webhook is the rules and events of Webhook.go, and
--     Matching about them. Rules is the collection of the rules from the polls, with Aggregating,
--     Collected, Listing and Asking about it, and Review the HTTP handler, with Observing about it.
--     Enrich is Enrich.go: Access the accesses to an object, and one module for each group of fields;
--     Units is about the text of an age, Frame and Again about what is read and written, Ranges about
--     map ranges. Runtime is SharedRuntime.go: Sharing its calls as events, Channels and Closing about
--     its channels. Results is BuildCMap and BuildCTable of Result.go, Collecting is Exec of
--     ClientGoCollector.go with Tabling and Running about it, Admission its admission events and
--     WarmUp.go.
--   Tables: SetValue and Keys of go/collector/protocols/Utils.go, on result tables; Cells is about them.
--   Snmp: go/collector/protocols/snmp/SNMPv2.go and SNMPv2Walk.go. Session is the connection, Walk and
--     Fetch one walk and one get, Jobs their attempts and the job, Oids the identifiers. Subtree,
--     Reports and Deaf are about walks. Net is NetSNMPv2.go, with Lines, Digits and Values about its
--     parser.
--   Ssh: go/collector/protocols/ssh/Ssh.go. Cleaning is about the answer that Exec makes of the output,
--     Session about jobs after a disconnect.
--   Rest: go/collector/protocols/rest/RestCollector.go. Calls is the session, Jobs parseWhat and Exec;
--     Requests is about parseWhat, Frame and Outcomes about Exec.
--   Graph: go/collector/protocols/graphql/GraphSqlCollector.go, with Authentication about its jobs.
--   Kubectl: go/collector/protocols/k8s/Kubernetes.go, with Scripts about its files and its status.
--   Arguments: ReplaceArguments of go/collector/common/utils.go.
--
-- Conventions. A method that changes its receiver returns the new state; `ok` is a return and `panic` a
-- Go panic (a nil dereference, an index out of range). What a mutex guards is one step. Parameters are
-- what is not in this repository: the pollaris registry (Registry), the clock and the random numbers
-- (World), the order in which Go ranges over a map, the encoders and the effects of the protocol
-- collectors (Env). IsDraw is the contract of rand.Int63n, IsRange says that a range meets the entries
-- of the map, IsRegistry that polls come with a cadence plan whose index is in range.
--
-- Bounds. Seconds and cadences are integers, far from the ends of int64; the hash is computed modulo 2 ^
-- 64. The rounds of an SNMP walk are those that its timeout leaves time for, and a walk that uses them
-- up has timed out; its theorem bounds the rounds that it needs. A command of a shell waits for as many
-- cycles as its reply lists, which are those that its timeout leaves time for. The loop over complete
-- boot stages takes as fuel the number of stages, and its theorem shows that this is enough: with no
-- fuel left it would panic, and it returns.
--
-- Not modelled: logging, the network and the protocol libraries, the settings of the admission server,
-- and the YAML of the webhook configuration. The service stops a host from another goroutine; in the
-- rounds of the loop this happens while a collector executes a job (`stops` of Env), or between two
-- rounds (`halted` of Host.Running), and a stop at another moment of a round is not modelled. A
-- goroutine that an SNMP timeout abandons may still write to the variables of the walk; that is not
-- modelled. The write of a polling order into the shared pollaris is not modelled: the order that it
-- leaves is one that the range may meet. In the shared runtime the REST configuration and the client are
-- one value, and the cache is left out, as no call clears it.
pub mod Prelude
pub mod Types
pub mod Cadence
pub mod Queue
pub mod Change
pub mod Host
pub mod Service
pub mod Text
pub mod Tables
pub mod Snmp
pub mod Ssh
pub mod Rest
pub mod Graph
pub mod Kubectl
pub mod Kube
pub mod Arguments
