-- ===== src/Lib.antt =====
-- A verification of the collector (collector/lib).
--
-- The collector watches the connections and listening endpoints of the containers of a host and tells
-- Sensor what changed. Events and the scraper of /proc feed a connection tracker, a map from
-- connections to statuses; every scrape interval the notifier fetches the tracker's state, in a
-- normalized form, compares it with what it has reported before and sends the difference.
--
-- The files and the code that they are about:
--   ConnStatus: class ConnStatus of ConnTracker.h, a time and a flag packed in a 64-bit word.
--   Delta: ConnectionTracker::ComputeDelta (ConnTracker.h); Delta/Pointwise is its table of cases,
--     Delta/Stream what a receiver of the deltas knows.
--   Afterglow: ComputeDeltaAfterglow, UpdateOldState and their helpers (ConnTracker.h), with the same
--     two children, and Afterglow/Reported, its reports as times and flags.
--   Tracker: the rest of class ConnectionTracker (ConnTracker.h, ConnTracker.cpp). Tracker/State is its
--     fields, filters and counters, Tracker/Normalize the normalization of connections and endpoints,
--     Tracker/Update Update and UpdateConnection, Tracker/Fetch FetchConnState and FetchEndpointState,
--     Tracker/Close the closing of connections when the configuration changes, Tracker/Config the
--     operations that set the configuration.
--   Net: Address, IPNet, Endpoint, ContainerEndpoint and Connection (NetworkConnection.h) and the
--     tables of private networks; Net/Keys says by which comparison the maps identify their keys.
--   Radix: class NRadixTree (NRadix.h, NRadix.cpp). Radix/Tree is the nodes and the plain operations
--     along paths of bits, Radix/Walk the walks as such operations, Radix/Path the path of a network,
--     Radix/Keyed the invariant and Insert, Radix/Find the lookup, Radix/All GetAll,
--     Radix/Subset IsAnyIPNetSubset.
--   Signal: class NetworkSignalHandler (NetworkSignalHandler.cpp), which turns the events of the system
--     inspector into updates of the tracker; Signal/Effect is what an event stands for.
--   ContainerId: the container ids of cgroup paths (Utility.cpp).
--   RateLimit: TimeLimiter, RateLimitCache and CountLimiter (RateLimit.h, RateLimit.cpp).
--   ExternalIps: ExternalIPsConfig.h and ExternalIPsConfig.cpp.
--   Notifier: class NetworkStatusNotifier (NetworkStatusNotifier.cpp). Notifier.antt is the loop of
--     RunSingle, Notifier/Message and Notifier/Proto the messages, Notifier/Control what Sensor sends and
--     its byte format, Notifier/OneRound and Notifier/Reports what the receiver knows after a round and after
--     a run.
--   Procfs: the scraper of /proc (ProcfsScraper.h, ProcfsScraper.cpp). Procfs/Fields is the C functions on
--     texts and the fields of a line, Procfs/Hex the addresses in hexadecimal digits, Procfs/ConnLine and
--     Procfs/ConnFile the lines and the files of net/tcp, Procfs/Links the links, stat and cgroup files of a
--     process, Procfs/Sockets ResolveSocketInodes, Procfs/Scan ReadContainerConnections, and
--     Procfs/Process ProcessScraper::Scrape. Procfs/Scan/Update composes the scan with the tracker's update.
--   Host: Host/Version is KernelVersion (HostInfo.h), Host/Info and its children Support and SecureBoot are
--     class HostInfo (HostInfo.h, HostInfo.cpp), and Host/Heuristics ProcessHostHeuristics
--     (HostHeuristics.cpp) with HostConfig and CollectionMethod.
--   Threads: Threads/Stoppable is class StoppableThread (StoppableThread.h, StoppableThread.cpp),
--     Threads/Client SignalServiceClient (SignalServiceClient.h, SignalServiceClient.cpp) and
--     Threads/StopRace its thread, its Stop and its PushSignals against each other, step by step.
--   ProcessSignal: ProcessSignal/Formatter is ProcessSignalFormatter (ProcessSignalFormatter.cpp) and
--     ProcessSignal/Lineage its GetProcessLineage, ProcessSignal/Sanitized SanitizedUTF8 (Utility.cpp),
--     ProcessSignal/Handler ProcessSignalHandler (ProcessSignalHandler.cpp), with the rate limiter of RateLimit
--     and the client of Threads/Client.
--   KeyMap: std::unordered_map, std::unordered_set and Containers.h, as association lists under a key
--     comparison; statements about maps are about their lookups, so no order of iteration matters.
--   Prelude: shared names, tests, lists, texts and integers.
--   The files named Examples apply the results at concrete inputs.
--
-- Conventions. A method that changes its object is a function from the state to the state after it.
-- The tracker's lock makes its methods atomic, apart from SetExternalIPsConfig and the closing of
-- connections, which take no lock; what other threads do before each step of a round is an arbitrary
-- function of the tracker. An int64_t is an integer, without a bound; the word
-- of a ConnStatus and the counters of the tracker keep their wrap-around, those of the process handler have
-- no bound. The words of an address are kept in host order, where the code swaps bytes on each use.
--
-- Texts are lists of character codes. A call that reads outside of a string or through a null pointer, or
-- that ends in an exception, has no value, or is an outcome of its own.
--
-- Fuel. The walks of the radix tree use walk_fuel = 130: a walk makes as many steps as the network has
-- bits, at most 128, and one more to end, as Radix/Path shows. sanitize_from has as much fuel as the text
-- has characters, since each round takes one off. The other loops are structural.
--
-- Not modelled: printing of addresses and their parsing with inet_pton, hash functions, the metrics and
-- logs, the duplex gRPC stream, the other threads, the counters of lineages, the configuration files and
-- arguments, and the start-up of the program. In Signal the container of an event
-- is a string of the event, and the identifiers of its type are below PPM_EVENT_MAX. The messages of Sensor
-- are generated code: the fields that are read or written are records here. The clock, the scrape and the
-- success of a write are inputs of each round, and what the files of the host hold is a parameter.
pub mod Prelude
pub mod KeyMap
pub mod Net
pub mod Radix
pub mod ConnStatus
pub mod Delta
pub mod Afterglow
pub mod ExternalIps
pub mod Tracker
pub mod ContainerId
pub mod Signal
pub mod RateLimit
pub mod Notifier
pub mod Procfs
pub mod Host
pub mod Threads
pub mod ProcessSignal
