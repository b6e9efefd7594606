-- ===== src/Examples/Zot.antt =====
-- A configuration file that holds a configuration as it is.
use agntcy_dir.Base.{◌≡◌, refl, Bool, true, false, none, some, [], ◌∷◌, ◌++◌, if◌then◌else◌}
use agntcy_dir.Base.Text.{GoString, lit, ◌==◌, has_prefix}
use agntcy_dir.Base.Result.{ok}
use agntcy_dir.Sync.Zot.{
  Config, ConfigFile, registry_for, has_registry, read_zot_config, normalize_registry_url,
  add_registry_to_zot_sync, remove_registry_from_zot_sync,
}
use agntcy_dir.Sync.Zot.Registries.{
  IsReliableFile, registries_of, add_registry_effect, remove_registry-add_registry,
}

abbrev pub file : ConfigFile
file = record {
  State = Config;
  Raw = Config;
  read_file = λ s. some s;
  write_file = λ c s. (ok tt, c);
  unmarshal = λ c. some c;
  marshal_indent = λ c. some c;
}

abbrev file-IsReliableFile : IsReliableFile file
file-IsReliableFile = record {
  write_ok = λ raw s. refl;
  read_back = λ raw s. refl;
  encoding = λ c. c;
  marshal_ok = λ c. refl;
  unmarshal_back = λ c. refl;
}

abbrev pub every : GoString → Bool
every url = true

abbrev host : GoString
host = lit "host:5000"

abbrev url : GoString
url = lit "http://host:5000"

abbrev pub other_registry : GoString
other_registry = lit "https://other"

abbrev pub config : Config
config = record {
  dist_spec_version = lit "1.1.0";
  root_directory = lit "/var";
  address = lit "0.0.0.0";
  port = lit "5000";
  log_level = none;
  extensions = some (record {
    search = none;
    sync = some (record {
      enable = none;
      credentials_file = [];
      registries = registry_for other_registry ∷ [];
    });
    trust = none;
  });
}

read_config : read_zot_config file every config ≡ ok config
unfolding read_zot_config
read_config = refl

normalized : normalize_registry_url file every host ≡ ok url
unfolding normalize_registry_url has_prefix ◌==◌
normalized = refl

not_there : has_registry url (registries_of config) ≡ false
unfolding registry_for ◌==◌
not_there = refl

add_registry_effect_example :
    (s' : Config) × (c' : Config) × (add_registry_to_zot_sync file every host config ≡ (ok tt, s'))
    × (read_zot_config file every s' ≡ ok c')
    × (registries_of c' ≡ (
        if has_registry url (registries_of config)
        then registries_of config
        else registries_of config ++ registry_for url ∷ []))
    × ((if has_registry url (registries_of config) then config else s') ≡ s')
add_registry_effect_example =
    add_registry_effect file every file-IsReliableFile host url config config (λ h. cc) read_config
      normalized

remove_registry-add_registry_example :
    (s' : Config) × (s'' : Config) × (c'' : Config) × (add_registry_to_zot_sync file every host
        config
      ≡ (ok tt, s'))
    × (remove_registry_from_zot_sync file every host s' ≡ (ok tt, s''))
    × (read_zot_config file every s'' ≡ ok c'')
    × (registries_of c'' ≡ registries_of config)
remove_registry-add_registry_example =
    remove_registry-add_registry file every file-IsReliableFile host url config config (λ h. cc)
      read_config normalized not_there
