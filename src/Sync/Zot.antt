-- ===== src/Sync/Zot.antt =====
-- The zot configuration file (server/sync/worker.go, utils/zot/config.go): registries are added to
-- and removed from its sync extension. The file system, JSON and url.Parse are parameters.
pub mod Registries
use agntcy_dir.Base.{
  ℕ, ◌≡◌, Bool, true, false, not, ◌&&◌, ◌||◌, Option, none, some, List, [], ◌∷◌, ◌++◌, any, eqb,
  length, if◌then◌else◌,
}
use agntcy_dir.Base.Int.{ℤ, pos}
use agntcy_dir.Base.Text.{GoString, lit, ◌==◌, has_prefix}
use agntcy_dir.Base.Result.{Result, ok, err, ◌>>=◌}
use agntcy_dir.Base.Action.{Action, proceed}
use agntcy_dir.Routing.Datastore.{Bytes}
use agntcy_dir.Routing.Local.{Codec, on_error, or_fail}

pub record SyncContent : Type 0 where
  pub prefix : GoString
  pub destination : GoString
  pub tags : Option (GoString × Bool)

pub record SyncRegistryConfig : Type 0 where
  pub urls : List GoString
  pub on_demand : Bool
  pub content : List SyncContent
  pub tls_verify : Option Bool
  pub max_retries : ℤ
  pub retry_delay : GoString
  pub poll_interval : GoString
  pub only_signed : Bool

pub record SyncConfig : Type 0 where
  pub enable : Option Bool
  pub credentials_file : GoString
  pub registries : List SyncRegistryConfig

pub record TrustConfig : Type 0 where
  pub enable : Bool
  pub cosign : Bool
  pub notation : Bool

-- A SearchConfig is its one field.
pub record Extensions : Type 0 where
  pub search : Option Bool
  pub sync : Option SyncConfig
  pub trust : Option TrustConfig

-- Storage, HTTP and Log are their fields.
pub record Config : Type 0 where
  pub dist_spec_version : GoString
  pub root_directory : GoString
  pub address : GoString
  pub port : GoString
  pub log_level : Option GoString
  pub extensions : Option Extensions

-- os.ReadFile and os.WriteFile at DefaultZotConfigPath, and json.Unmarshal and json.MarshalIndent on
-- what is read and written; `none` and `err` are errors.
pub record ConfigFile : Type 1 where
  pub State : Type 0
  pub Raw : Type 0
  pub read_file : State → Option Raw
  pub write_file : Raw → Action State (Unit {0}) (Unit {0})
  pub unmarshal : Raw → Option Config
  pub marshal_indent : Config → Option Raw

pub data ZotError : Type 0 where
  empty_url read_failed unmarshal_failed invalid_url marshal_failed write_failed : ZotError

-- The registry that is added.
unfoldable pub registry_for : GoString → SyncRegistryConfig
registry_for url = record {
  urls = url ∷ [];
  on_demand = false;
  content = record { prefix = lit "dir"; destination = []; tags = none } ∷ [];
  tls_verify = some false;
  max_retries = pos 3;
  retry_delay = lit "5m";
  poll_interval = lit "60s";
  only_signed = false;
}

abbrev pub empty_extensions : Extensions
empty_extensions = record { search = none; sync = none; trust = none }

abbrev pub empty_sync : SyncConfig
empty_sync = record { enable = none; credentials_file = []; registries = [] }

-- The extensions and the sync configuration, empty ones where they are nil.
abbrev pub extensions_of : Option Extensions → Extensions
extensions_of none = empty_extensions
extensions_of (some x) = x

abbrev pub sync_of : Option SyncConfig → SyncConfig
sync_of none = empty_sync
sync_of (some x) = x

abbrev pub with_sync : SyncConfig → Config → Config
with_sync sync c =
    let x = extensions_of c.extensions in
    record {
      dist_spec_version = c.dist_spec_version;
      root_directory = c.root_directory;
      address = c.address;
      port = c.port;
      log_level = c.log_level;
      extensions = some (record { search = x.search; sync = some sync; trust = x.trust });
    }

-- The test whether a registry has the URL, and the loop that looks for one.
abbrev pub has_url : GoString → SyncRegistryConfig → Bool
has_url url registry = any (λ u. u == url) registry.urls

abbrev pub has_registry : GoString → List SyncRegistryConfig → Bool
has_registry url registries = any (has_url url) registries

-- The loop that keeps the registries without the URL.
unfoldable pub filtered : GoString → List SyncRegistryConfig → List SyncRegistryConfig
filtered url [] = []
filtered url (registry ∷ registries) =
    let rest = filtered url registries in if has_url url registry then rest else registry ∷ rest

module _ (file : ConfigFile) (url_parses : GoString → Bool) where
  unfoldable pub read_zot_config : file.State → Result ZotError Config
  read_zot_config s = or_fail read_failed (file.read_file s) >>= λ raw.
      or_fail unmarshal_failed (file.unmarshal raw)

  unfoldable pub write_zot_config : Config → Action file.State ZotError (Unit {0})
  write_zot_config c s = elim (file.marshal_indent c) [
    | none ↦ (err marshal_failed, s)
    | some raw ↦ let (r, s') = file.write_file raw s in (on_error write_failed r, s')
  ]

  unfoldable pub normalize_registry_url : GoString → Result ZotError GoString
  normalize_registry_url url =
      if url == []
      then err empty_url
      else if not (has_prefix url (lit "http://")) && not (has_prefix url (lit "https://"))
      then ok (lit "http://" ++ url)
      else if url_parses url
      then ok url
      else err invalid_url

  -- addRegistryToZotSync, from the configuration that was read.
  unfoldable pub add_registry : GoString → Config → Action file.State ZotError (Unit {0})
  add_registry url c s =
      let sync = sync_of (extensions_of c.extensions).sync in
      elim (normalize_registry_url url) [
        | err e ↦ (err e, s)
        | ok registry_url ↦
            if has_registry registry_url sync.registries
            then (ok tt, s)
            else write_zot_config
                (with_sync
                  (record {
                    enable = some true;
                    credentials_file = sync.credentials_file;
                    registries = sync.registries ++ registry_for registry_url ∷ [];
                  })
                  c)
                s
      ]

  unfoldable pub add_registry_to_zot_sync : GoString → Action file.State ZotError (Unit {0})
  add_registry_to_zot_sync url s =
      if url == [] then (err empty_url, s) else proceed (read_zot_config s, s) (add_registry url)

  -- removeRegistryFromZotSync, from the sync configuration that was read.
  unfoldable pub remove_registry :
      GoString → Config → SyncConfig → Action file.State ZotError (Unit {0})
  remove_registry url c sync s = elim (normalize_registry_url url) [
    | err e ↦ (err e, s)
    | ok registry_url ↦
        let kept = filtered registry_url sync.registries in
        if eqb (length kept) (length sync.registries)
        then (ok tt, s)
        else write_zot_config
            (with_sync
              (record {
                enable = sync.enable;
                credentials_file = sync.credentials_file;
                registries = kept;
              })
              c)
            s
  ]

  -- No extensions or no sync configuration: there is nothing to remove.
  unfoldable pub remove_if_configured : GoString → Config → Action file.State ZotError (Unit {0})
  remove_if_configured url c s = elim (extensions_of c.extensions).sync [
    | none ↦ (ok tt, s)
    | some sync ↦ remove_registry url c sync s
  ]

  unfoldable pub remove_registry_from_zot_sync : GoString → Action file.State ZotError (Unit {0})
  remove_registry_from_zot_sync url s =
      if url == []
      then (err empty_url, s)
      else proceed (read_zot_config s, s) (remove_if_configured url)
