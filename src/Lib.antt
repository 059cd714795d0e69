-- ===== src/Lib.antt =====
-- A model of Sloop, which records what happens in a Kubernetes cluster, and theorems about it.
--
-- Sloop watches a cluster and writes what it sees to a key-value store: each record goes to a table,
-- under a key that begins with the name of the table and of a partition, an hour or a day. Queries
-- read the partitions of a time range; a garbage collection deletes the oldest partitions. The parts
-- and the files that model them:
--
--   pkg/sloop/store/untyped/badgerwrap/mock.go (Mock): the database in memory, with transactions and
--     iterators. A Go map is an association list in which a key stands once. A transaction holds the
--     lock from its start to its end, so it is one function from database to database.
--   pkg/sloop/store/untyped/partition.go, store.go (Partition): names of partitions, their times, and
--     the check on the duration. The duration, a package variable there, is an argument here. A time
--     that gets the name of a partition is a `ZonedTime`, with its location: records and rows have
--     times in UTC, the times of a query have any location, `time.Now()` has that of the machine.
--   pkg/sloop/store/typed/*table.go (Typed/WatchKey, SummaryKey, EventCountKey, ActivityKey): the keys
--     of the four tables; each fills the record `KeyType` of Typed/Key.
--   pkg/sloop/store/typed/tabletemplate.go and the four generated files (Typed/Table, Typed/Tables):
--     the operations of a table over any `KeyType` and any `Codec`, and the four instances. A `Codec`
--     is the protobuf encoding of the values, a library: theorems that need it to round-trip say so.
--   pkg/sloop/store/typed/tables.go (Typed/Tables): the four tables over one database.
--   pkg/sloop/common/utilities.go, db_utilities.go, partition_utilities.go (Common): keys, deletion by
--     prefix, and how many keys each partition has.
--   pkg/sloop/store/typed/schema.proto (Typed/Schema): the values of the tables, as records.
--   pkg/sloop/kubeextractor (KubeExtractor): what is taken from the JSON of a resource.
--   pkg/sloop/ingress/kubewatcher.go (Ingress/Watcher, Ingress/Update): the watcher of the cluster. Its
--     goroutines and its callers are actions on one state, with its lock and the channels it closes;
--     `step` is `none` where an action has to wait. A report goes through the rules of exclusion and
--     the metrics to the channel that the processing reads.
--   pkg/sloop/processing/processing.go, watch.go, watchactivity.go, resourcesummary.go, eventcount.go
--     (Processing/Runner, Watch, Activity, Summary, Minutes, EventCount): the loop over the channel,
--     which runs one transaction per table for a record, logs what fails and goes on. The state is the
--     database and what was logged.
--   pkg/sloop/storemanager/storemanager.go (StoreManager): the garbage collection.
--   pkg/sloop/queries/timerange.go, rangereadfilters.go, queryfilter.go, respayloadquery.go,
--     queryd3heatmap.go, eventquery.go, ressumquery.go (Queries/TimeRange, TimeFilter, RowFilter,
--     Payloads, HeatMap, Run): the time range of a query, the filters on rows and values, the payloads
--     of a resource, the rows of the timeline, and the queries made of these and of range reads.
--
-- Base has what these share: lists and integers over the native numbers, texts as lists of bytes, and
-- `Outcome`, the result of a call that may return an error, panic, or still run when the bound on its
-- rounds is met. GoTime has the instants and durations of Go's package time, in nanoseconds: an
-- instant is any integer, a duration is cut to 64 bits where Go cuts it. A `Location` says where its
-- hours and days start; theorems that need more name it (`IsAhead`, a clock that is not changed).
-- Queries/TimeRange has no locations, and Queries/Run takes times in any.
--
-- Names are those of the source in the spelling of this language: `GetPartitionId` is
-- `get_partition_id`; a method takes its receiver as an argument; a loop is a function beside the
-- one that it stands in.
--
-- Bounds: the loop over partitions takes a bound on its rounds, and `get_partitions_complete` says
-- how many are enough. The loops over an iterator get one round more than there are keys, which is
-- enough. The loop of `delete_keys_with_prefix` takes a bound, since there are databases on which it
-- does not end. Names of partitions have twelve digits, which is the limit on instants.
--
-- float64 is a parameter (`Float64` in Processing/EventCount, `GcFloat` in StoreManager): theorems
-- hold for any such arithmetic, or name the laws they need.
--
-- Libraries are parameters: `Services` (Processing/Services) has the encodings of the values and the
-- conversions of protobuf timestamps, `Json` (KubeExtractor) the decoder, `Client` (Ingress/Update) the
-- marshaller of the Kubernetes client and the rules engine; the sort of the payloads is an argument.
-- A pass over a Go map goes through a list of its entries, in the order of the list. In the timeline
-- the rows of two nodes of one name share a slice of overlays, which the adjustment changes in place:
-- the slices stand in the map of overlays. HeatMap/Shared says when a row is adjusted on its own.
--
-- Not modelled: the Badger database itself and the files that forward to it, the web server, the
-- query for the kinds, the JSON that queries return, the Kubernetes client, playback and
-- recording of files, metrics, logs, configuration, and generated assets.
pub mod Base
pub mod GoTime
pub mod Partition
pub mod Common
pub mod KubeExtractor
pub mod Mock
pub mod Typed
pub mod Processing
pub mod StoreManager
pub mod Queries
pub mod Ingress
pub mod Examples
