-- ===== src/Sync/Zot/Registries.antt =====
-- What adding and removing a registry do to the configuration file.
use agntcy_dir.Base.{
  ◌≤◌, ◌≡◌, ◌≢◌, refl, sym, ap, ◌∙◌, Bool, true, false, Bool-cases, inl, inr, some, Option-cases,
  List, [], ◌∷◌, ◌++◌, arith, eqb, eqb_iff, length, if◌then◌else◌,
}
use agntcy_dir.Base.Text.{GoString, ◌==◌, eq_iff, eq_refl}
use agntcy_dir.Base.Result.{ok}
use agntcy_dir.Sync.Zot.{
  SyncRegistryConfig, SyncConfig, Config, ConfigFile, registry_for, extensions_of, sync_of,
  with_sync, has_registry, filtered, read_zot_config, write_zot_config, normalize_registry_url,
  add_registry, add_registry_to_zot_sync, remove_registry, remove_if_configured,
  remove_registry_from_zot_sync,
}

-- A file that can be written, and then holds what was written; every configuration has an encoding,
-- which is read back.
pub record IsReliableFile (file : ConfigFile) : Type 0 where
  pub write_ok : (raw : file.Raw) (s : file.State) → (file.write_file raw s).0 ≡ ok tt
  pub read_back :
      (raw : file.Raw) (s : file.State) → file.read_file (file.write_file raw s).1 ≡ some raw
  pub encoding : Config → file.Raw
  pub marshal_ok : (c : Config) → file.marshal_indent c ≡ some (encoding c)
  pub unmarshal_back : (c : Config) → file.unmarshal (encoding c) ≡ some c

abbrev pub registries_of : Config → List SyncRegistryConfig
registries_of c = (sync_of (extensions_of c.extensions).sync).registries

filtered_nil : (url : GoString) → filtered url [] ≡ []
unfolding filtered
filtered_nil url = refl

filtered_shorter :
    (url : GoString) (rs : List SyncRegistryConfig) → length (filtered url rs) ≤ length rs
unfolding filtered
filtered_shorter url [] = omega arith
filtered_shorter url (r ∷ rs) = ground (arith, filtered_shorter url rs)

-- A list that keeps its length keeps its members.
filtered_same :
    (url : GoString) (rs : List SyncRegistryConfig)
    → length (filtered url rs) ≡ length rs
    → filtered url rs ≡ rs
unfolding filtered
filtered_same url [] h = refl
filtered_same url (r ∷ rs) h = ground (arith, filtered_same url rs, filtered_shorter url rs)

filtered_none :
    (url : GoString) (rs : List SyncRegistryConfig) → has_registry url (filtered url rs) ≡ false
unfolding filtered
filtered_none url [] = refl
filtered_none url (r ∷ rs) = ground (arith, filtered_none url rs)

filtered_added :
    (url : GoString) (rs : List SyncRegistryConfig)
    → has_registry url rs ≡ false
    → filtered url (rs ++ registry_for url ∷ []) ≡ rs
unfolding filtered registry_for
filtered_added url [] h = ground (arith, eq_refl url)
filtered_added url (r ∷ rs) h = ground (arith, filtered_added url rs)

module _ (file : ConfigFile) (url_parses : GoString → Bool) (rel : IsReliableFile file) where
  written :
      (c : Config) (s : file.State)
      → (s' : file.State) × (write_zot_config file url_parses c s ≡ (ok tt, s'))
        × (read_zot_config file url_parses s' ≡ ok c)
  unfolding write_zot_config read_zot_config
  written c s =
      let raw = rel.encoding c in
      (
        (file.write_file raw s).1,
        rw (rel.marshal_ok c, write_zot_config) (rw (rel.write_ok raw s)),
        rw (rel.read_back raw s) (rw (rel.unmarshal_back c)),
      )

  -- With a file that is read and written, and a URL that is not empty and normalizes, adding a registry
  -- whose URL, normalized, is not in the configuration appends one registry for
  -- that URL; a URL that is there leaves the file as it is, even with the synchronization disabled.
  pub add_registry_effect :
      (url u : GoString) (c : Config) (s : file.State)
      → url ≢ []
      → read_zot_config file url_parses s ≡ ok c
      → normalize_registry_url file url_parses url ≡ ok u
      → (s' : file.State) × (c' : Config) × (add_registry_to_zot_sync file url_parses url s
          ≡ (ok tt, s'))
        × (read_zot_config file url_parses s' ≡ ok c')
        × (registries_of c' ≡ (
            if has_registry u (registries_of c)
            then registries_of c
            else registries_of c ++ registry_for u ∷ []))
        × ((if has_registry u (registries_of c) then s else s') ≡ s')
  unfolding add_registry_to_zot_sync add_registry
  add_registry_effect url u c s nonempty loaded normal =
      let named : (url == []) ≡ false = ground (arith, eq_iff url []) in
      elim (Bool-cases (has_registry u (registries_of c))) [
        | inl there ↦ (
          s,
          c,
          rw (named, loaded) (rw (normal, add_registry) (rw there)),
          loaded,
          rw there,
          rw there,
        )
        | inr new ↦
            let sync = sync_of (extensions_of c.extensions).sync in
            let c' =
              with_sync
                (record {
                  enable = some true;
                  credentials_file = sync.credentials_file;
                  registries = sync.registries ++ registry_for u ∷ [];
                })
                c in
            let (s', done, reads) = written c' s in
            (
              s',
              c',
              rw (named, loaded) (rw (normal, add_registry) (rw new done)),
              reads,
              rw new,
              rw new,
            )
      ]

  removed :
      (url u : GoString) (c : Config) (sync : SyncConfig) (s : file.State)
      → read_zot_config file url_parses s ≡ ok c
      → sync_of (extensions_of c.extensions).sync ≡ sync
      → normalize_registry_url file url_parses url ≡ ok u
      → (s' : file.State) × (c' : Config) × (remove_registry file url_parses url c sync s
          ≡ (ok tt, s'))
        × (read_zot_config file url_parses s' ≡ ok c')
        × (registries_of c' ≡ filtered u sync.registries)
  unfolding remove_registry
  removed url u c sync s loaded its normal =
      elim (Bool-cases (eqb (length (filtered u sync.registries)) (length sync.registries))) [
        | inl same ↦
            let stays = filtered_same u sync.registries ((eqb_iff _ _).0 same) in
            (
              s,
              c,
              rw (normal, remove_registry) (rw same),
              loaded,
              ap (λ x. x.registries) its ∙ sym stays,
            )
        | inr fewer ↦
            let c' =
              with_sync
                (record {
                  enable = sync.enable;
                  credentials_file = sync.credentials_file;
                  registries = filtered u sync.registries;
                })
                c in
            let (s', done, reads) = written c' s in
            (s', c', rw (normal, remove_registry) (rw fewer done), reads, refl)
      ]

  -- With a file that is read and written, and a URL that is not empty and normalizes, removing a
  -- registry keeps, in order, exactly the registries without its normalized URL.
  pub remove_registry_effect :
      (url u : GoString) (c : Config) (s : file.State)
      → url ≢ []
      → read_zot_config file url_parses s ≡ ok c
      → normalize_registry_url file url_parses url ≡ ok u
      → (s' : file.State) × (c' : Config) × (remove_registry_from_zot_sync file url_parses url s
          ≡ (ok tt, s'))
        × (read_zot_config file url_parses s' ≡ ok c')
        × (registries_of c' ≡ filtered u (registries_of c))
        × (has_registry u (registries_of c') ≡ false)
  unfolding remove_registry_from_zot_sync remove_if_configured
  remove_registry_effect url u c s nonempty loaded normal =
      let named : (url == []) ≡ false = ground (arith, eq_iff url []) in
      elim (Option-cases (extensions_of c.extensions).sync) [
        | inl nothing ↦
            let empty : registries_of c ≡ [] = ap (λ o. (sync_of o).registries) nothing in
            (
              s,
              c,
              rw (named, loaded) (rw (nothing, remove_if_configured)),
              loaded,
              empty ∙ (sym (filtered_nil u) ∙ ap (filtered u) (sym empty)),
              ap (has_registry u) empty,
            )
        | inr (sync, there) ↦
            let (s', c', done, reads, kept) =
              removed url u c sync s loaded (ap sync_of there) normal in
            (
              s',
              c',
              rw (named, loaded) (rw (there, remove_if_configured) done),
              reads,
              kept ∙ ap (λ o. filtered u (sync_of o).registries) (sym there),
              ap (has_registry u) kept ∙ filtered_none u sync.registries,
            )
      ]

  -- With a file that is read and written, and a URL that is not empty and normalizes, removing a
  -- registry that was just added, and that was not there before, restores the registries.
  pub remove_registry-add_registry :
      (url u : GoString) (c : Config) (s : file.State)
      → url ≢ []
      → read_zot_config file url_parses s ≡ ok c
      → normalize_registry_url file url_parses url ≡ ok u
      → has_registry u (registries_of c) ≡ false
      → (s' : file.State) × (s'' : file.State) × (c'' : Config) × (add_registry_to_zot_sync file
            url_parses url s
          ≡ (ok tt, s'))
        × (remove_registry_from_zot_sync file url_parses url s' ≡ (ok tt, s''))
        × (read_zot_config file url_parses s'' ≡ ok c'')
        × (registries_of c'' ≡ registries_of c)
  remove_registry-add_registry url u c s nonempty loaded normal new =
      let (s', c', done, reads, added, _) = add_registry_effect url u c s nonempty loaded normal in
      let (s'', c'', done', reads', kept, _) =
        remove_registry_effect url u c' s' nonempty reads normal in
      let appended : registries_of c' ≡ registries_of c ++ registry_for u ∷ [] = rw new at added in
      (
        s',
        s'',
        c'',
        done,
        done',
        reads',
        kept ∙ ap (filtered u) appended ∙ filtered_added u (registries_of c) new,
      )
