-- ===== src/Feeds/Cache/Tests.antt =====
-- A store in a directory whose file names are the URLs, and a process that is killed in the middle
-- of the write of the meta data.
use server_validator.Prelude.{◌≡◌, ◌≢◌, ◌⊎◌, [], ◌∷◌, ◌++◌, List, Option, none, some}
use server_validator.Prelude.Int.{pos}
use server_validator.Text.{Text, lit}
use server_validator.GoMap.{lookup}
use server_validator.Sink.Dsn.{ok}
use server_validator.Feeds.Fetch.{CacheMeta, Faults, Codec, store}
use server_validator.Feeds.Cache.{
  Disk, Cache, body_path, meta_path, entry, FileOp, apply_ops, killed_at, store_ops,
}
use server_validator.Feeds.Cache.Course.{AreNames}
use server_validator.Feeds.Cache.Entries.{store_ops_lem}
use server_validator.Feeds.Cache.Crashes.{store_ops-Safe}

abbrev plain_cache : Cache
plain_cache = record { dir = lit "c"; join = λ dir name. dir ++ lit "/" ++ name; hash = λ url. url }

abbrev plain_codec : Codec
plain_codec = record {
  marshal = λ m. ok m.etag;
  unmarshal = λ s. ok (record { url = []; etag = s; last_modified = []; fetched_at = pos 0 });
}

abbrev new_meta : CacheMeta
new_meta = record { url = lit "u"; etag = lit "tag"; last_modified = []; fetched_at = pos 0 }

abbrev no_faults : Faults
no_faults = record {
  mkdir_error = none;
  create_error = none;
  write_error = none;
  close_error = none;
  rename_error = none;
  meta_error = none;
}

-- An entry of the URL, and another file.
abbrev old_disk : Disk
old_disk = (lit "c/u.body", lit "old") ∷ (lit "c/other", lit "x") ∷ []

plain_names : AreNames plain_cache (lit "u") (lit "tmp")
unfolding body_path meta_path lit
plain_names = record { body_apart = λ e. cc; meta_apart = λ e. cc; paths_apart = λ e. cc }

abbrev plain_ops : List FileOp × Option Text
plain_ops =
    store_ops plain_codec no_faults plain_cache (lit "u") (lit "tmp") [] (lit "new") new_meta

store_ops_lem_example :
    ((entry plain_cache (lit "u") (apply_ops plain_ops.0 old_disk)
        ≡ (store plain_codec no_faults
            (lit "new")
            new_meta
            (entry plain_cache (lit "u") old_disk)).0)
      × (plain_ops.1
          ≡ (store plain_codec no_faults
              (lit "new")
              new_meta
              (entry plain_cache (lit "u") old_disk)).1))
    × ((j : Text)
        → j ≢ lit "tmp"
        → j ≢ body_path plain_cache (lit "u")
        → j ≢ meta_path plain_cache (lit "u")
        → lookup j (apply_ops plain_ops.0 old_disk) ≡ lookup j old_disk)
store_ops_lem_example =
    store_ops_lem plain_codec no_faults plain_cache (lit "u") (lit "tmp") [] (lit "new") new_meta
      old_disk plain_names

store_ops-Safe_example :
    let left = killed_at 3 (some 1) plain_ops.0 old_disk in
    ((lookup (body_path plain_cache (lit "u")) left
        ≡ lookup (body_path plain_cache (lit "u")) old_disk)
      × (lookup (meta_path plain_cache (lit "u")) left
          ≡ lookup (meta_path plain_cache (lit "u")) old_disk))
    ⊎ (lookup (body_path plain_cache (lit "u")) left ≡ some (lit "new"))
store_ops-Safe_example =
    store_ops-Safe plain_codec no_faults plain_cache (lit "u") (lit "tmp") [] (lit "new") new_meta
      old_disk plain_names 3 (some 1)
