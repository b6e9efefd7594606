-- ===== src/Routing/Combined.antt =====
-- The router (server/routing/routing.go): local routing, and the network when it has peers.
use agntcy_dir.Base.{ℕ, ◌≡◌, Bool, ltb, Option, some, List, [], ◌∷◌, ◌++◌, if◌then◌else◌, map}
use agntcy_dir.Base.Text.{GoString}
use agntcy_dir.Base.Result.{Result, ok, err}
use agntcy_dir.Base.Action.{Action}
use agntcy_dir.Labels.Namespace.{NamespaceType}
use agntcy_dir.Labels.Key.{build_enhanced_label_key}
use agntcy_dir.Labels.Metadata.{LabelMetadata, Time}
use agntcy_dir.Records.Adapter.{Record}
use agntcy_dir.Routing.Datastore.{Datastore}
use agntcy_dir.Routing.Metrics.{Metrics}
use agntcy_dir.Routing.Local
use agntcy_dir.Routing.Local.{Codec, Failure, RecordQuery, ListResponse}
use agntcy_dir.Routing.Network.{valid_put}
use agntcy_dir.Routing.Remote
use agntcy_dir.Routing.Remote.{Dht, RemoteError}

pub data RouteError : Type 0 where
  locally : Failure → RouteError
  to_network : RemoteError → RouteError

module _ {Fault : Type 0} (d : Datastore) (metadata_codec : Codec LabelMetadata)
    (metrics_codec : Codec Metrics) (local_peer_id : GoString) (dht : Dht Fault)
    (cid_decodes : GoString → Bool) (table_size : dht.State → ℕ) where
  abbrev pub RouteState : Type 0
  RouteState = d.State × dht.State

  -- route.hasPeersInRoutingTable; the remote router is always there after New.
  unfoldable pub has_peers_in_routing_table : dht.State → Bool
  has_peers_in_routing_table n = ltb 0 (table_size n)

  abbrev pub after_network :
      d.State
      → Result RemoteError (Unit {0}) × dht.State
      → Result RouteError (Unit {0}) × RouteState
  after_network s (ok _, n) = (ok tt, (s, n))
  after_network s (err e, n) = (err (to_network e), (s, n))

  abbrev pub after_local :
      GoString
      → Record
      → Result Failure (Unit {0}) × d.State
      → dht.State
      → Result RouteError (Unit {0}) × RouteState
  after_local cid r (ok _, s) n =
      if has_peers_in_routing_table n
      then after_network s (Remote.publish dht local_peer_id cid_decodes cid r n)
      else (ok tt, (s, n))
  after_local cid r (err e, s) n = (err (locally e), (s, n))

  -- route.Publish, of a reference and a record that are there.
  unfoldable pub publish : Time → GoString → Record → Action RouteState RouteError (Unit {0})
  publish now cid r (s, n) =
      after_local cid r
        (Local.publish d metadata_codec metrics_codec local_peer_id now (some cid) (some r) s) n

  abbrev pub after_unpublish :
      Result Failure (Unit {0}) × d.State → dht.State → Result RouteError (Unit {0}) × RouteState
  after_unpublish (ok _, s) n = (ok tt, (s, n))
  after_unpublish (err e, s) n = (err (locally e), (s, n))

  -- route.Unpublish and route.List
  unfoldable pub unpublish : GoString → Record → Action RouteState RouteError (Unit {0})
  unpublish cid r (s, n) =
      after_unpublish
        (Local.unpublish d metadata_codec metrics_codec local_peer_id (some cid) (some r) s) n

  unfoldable pub list : List RecordQuery → ℕ → RouteState → List ListResponse
  list queries limit (s, n) = Local.list_records d local_peer_id queries limit s

-- A DHT with these validators: Provide succeeds, and PutValue keeps a pair exactly when the validator of its
-- namespace accepts it. `values` are the pairs put so far.
pub record IsRecording {Fault : Type 0} (dht : Dht Fault)
    (namespace_of : GoString → Option NamespaceType) (cid_decodes : GoString → Bool) : Type 0 where
  pub values : dht.State → List (GoString × GoString)
  pub provide_ok : (cid : GoString) (n : dht.State) → (dht.provide cid n).0 ≡ ok tt
  pub provide_values : (cid : GoString) (n : dht.State) → values (dht.provide cid n).1 ≡ values n
  pub put_values :
      (key value : GoString) (n : dht.State)
      → values (dht.put_value key value n).1 ≡ (
          if valid_put namespace_of cid_decodes key value
          then values n ++ ((key, value) ∷ [])
          else values n)

-- The keys and values that announce a record's labels.
abbrev pub announcements : GoString → GoString → List GoString → List (GoString × GoString)
announcements cid peer labels = map (λ l. (build_enhanced_label_key l cid peer, cid)) labels
