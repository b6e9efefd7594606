-- ===== src/Lib.antt =====
-- The directory of agntcy/dir (the Go server), verified from its store's controller to its routing,
-- sync and publication services.
--
-- The server stores agent records by their CID and makes them discoverable by labels: skills,
-- domains, features and locators. Publishing a record at this peer writes a record key, a key for each
-- label and a table of label counts into a key-value datastore; listing reads them back; the label
-- keys also travel over a DHT, whose nodes check them with validators and whose peers keep them, refresh
-- them and clean up the stale ones. The controller of the store carries out the streams of the clients
-- on a cached store and a search index; publications announce stored records; the sync service
-- copies records from other directories, and the monitor indexes what arrives.
--
-- Base: names from the libraries, Boolean tests, lists, Go strings as lists of bytes with the
--   functions of package strings, fallible results, actions on a state, and Go maps.
-- Controllers: server/controller/store.go. Stream is the receive and send loop that its methods share,
--   Store the methods, on a store and a search index; the children state what the streams and the
--   index hold after them and how the referrers are answered.
-- Labels: server/routing/validators and server/routing/label_metadata.go. Labels/Namespace is constants.go;
--   Labels/Key builds and parses enhanced keys; Labels/Metadata is LabelMetadata; Labels/Validator is
--   validators.go, whose children characterise what is accepted.
-- Publications: server/publication. Rows is server/database/sqlite/publication.go over the calls of gorm,
--   Scheduler is scheduler.go with its bounded queue, Worker is worker.go.
-- Records: server/types/record.go and server/types/adapters. V1, V2 and V3 are the three adapters, Adapter
--   chooses between them, LabelsOf is getLabels of server/routing/routing_local.go.
-- Routing: server/routing. Datastore is the interface of go-datastore and what a store that does not fail
--   promises; Metrics is metrics.go; Local is routing_local.go, with children for what Publish and
--   Unpublish do, what they leave when they fail, and what List finds. Remote is routing_remote.go, with
--   children for its cleanup and republishing; Network is the validators that it gives to the DHT;
--   Handler is the announcements of handler.go; Combined is routing.go over Local and Remote.
-- Search: server/database/utils/utils.go, from queries to the filters of server/types/search.go.
-- Store: server/store. Cache is cache/cache.go over a source store and a datastore; its children state when
--   cache and source agree, and compare the cached store with its source request by request.
-- Sync: server/sync. Database is server/database/sqlite/sync.go over the calls of gorm, Scheduler is
--   scheduler.go with its bounded queue, Worker carries out the items of worker.go, and Zot is
--   the part of worker.go that adds registries to the zot configuration file and removes them, with
--   the types of utils/zot/config.go; Monitor is server/sync/monitor/monitor.go.
-- Examples: a datastore, codecs and inputs at which the theorems are applied.
--
-- A method on an object is a function from the object's state to a result and the state after it.
-- What the code takes from other packages is a parameter: the datastore and its keys, JSON, and the
-- CID decoder, the calls of gorm, the DHT, the object store, the client's side of a stream, the
-- registry and its tags, SHA-256, the file system, URL parsing and the credential negotiation. The
-- clock is an argument, read once for each call; contexts are not cancelled and timeouts do not
-- strike. A label total is a uint64 and wraps at 2 ^ 64; lengths and times are natural numbers.
-- Every loop is a recursion on the list it walks, so no fuel is used, except in the decoder of the
-- examples, which reads as many entries as its count says.
--
-- Not modelled: the OCI registry, the SQL of the search index, libp2p, gRPC and the database engine,
-- which are calls of libraries; the search over the network and the validation of announced CIDs by
-- pulling them, which are remote calls; the controllers other than the store's and the
-- authorization, which pass requests on; the command line and the clients; logging and tracing,
-- which change no state.
pub mod Base
pub mod Controllers
pub mod Labels
pub mod Publications
pub mod Records
pub mod Routing
pub mod Search
pub mod Store
pub mod Sync
pub mod Examples
