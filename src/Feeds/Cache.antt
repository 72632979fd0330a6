-- ===== src/Feeds/Cache.antt =====
-- feeds/cache.go: the files in the directory of the cache, as the processes of a running system see
-- them, and what `store` does to them. A write may end half-way when the process is killed; a rename
-- and a removal are done at once. `store` never syncs a file, and what is left of its calls behind a
-- stop of the whole system is not modelled.
pub mod Course
pub mod Crashes
pub mod Entries
mod Tests
use server_validator.Prelude.{ℕ, zero, suc, List, [], ◌∷◌, ◌++◌, Option, none, some, take}
use server_validator.Text.{Text, lit}
use server_validator.GoMap.{GoMap, lookup, insert, delete}
use server_validator.Sink.Dsn.{Result, ok, err}
use server_validator.Feeds.Fetch.{CacheMeta, Files, Faults, Codec}

-- The readable files of the running system, by their paths.
abbrev pub Disk : Type 0
Disk = GoMap Text

-- The directory, `filepath.Join`, and the hexadecimal digits of the hash of a URL.
pub record Cache : Type 0 where
  pub dir : Text
  pub join : Text → Text → Text
  pub hash : Text → Text

unfoldable pub body_path : Cache → Text → Text
body_path c url = c.join c.dir (c.hash url ++ lit ".body")

unfoldable pub meta_path : Cache → Text → Text
meta_path c url = c.join c.dir (c.hash url ++ lit ".meta.json")

-- The files of the entry of a URL.
unfoldable pub entry : Cache → Text → Disk → Files
entry c url d = record { body = lookup (body_path c url) d; meta = lookup (meta_path c url) d }

pub data FileOp : Type 0 where
  write_to : Text → Text → FileOp
  move : Text → Text → FileOp
  remove : Text → FileOp

unfoldable pub apply_op : FileOp → Disk → Disk
apply_op (write_to path content) d = insert path content d
apply_op (move from to) d = elim (lookup from d) [
  | none ↦ d
  | some content ↦ insert to content (delete from d)
]
apply_op (remove path) d = delete path d

unfoldable pub apply_ops : List FileOp → Disk → Disk
apply_ops [] d = d
apply_ops (op ∷ ops) d = apply_ops ops (apply_op op d)

-- The files when the process is killed behind `n` operations: before the next one, or, with `some k`,
-- when `k` bytes of it were written. The system keeps what the finished operations did.
unfoldable pub killed_at : ℕ → Option ℕ → List FileOp → Disk → Disk
killed_at n part [] d = d
killed_at (suc n) part (op ∷ ops) d = killed_at n part ops (apply_op op d)
killed_at zero none (op ∷ ops) d = d
killed_at zero (some k) (write_to path content ∷ ops) d = insert path (take k content) d
killed_at zero (some k) (move from to ∷ ops) d = d
killed_at zero (some k) (remove path ∷ ops) d = d

-- What the write of the meta file does if it fails. A file that cannot be read counts as none.
unfoldable pub left_op : Text → Option Text → FileOp
left_op path none = remove path
left_op path (some content) = write_to path content

-- The operations of a store, up to its first error, and that error. `tmp` is the name that
-- `os.CreateTemp` finds, and `part` what a write to that file leaves if it fails.
unfoldable pub store_ops :
    Codec → Faults → Cache → Text → Text → Text → Text → CacheMeta → List FileOp × Option Text
store_ops codec f c url tmp part body m =
    let made = write_to tmp [] in
    let filled = made ∷ write_to tmp body ∷ [] in
    let moved = made ∷ write_to tmp body ∷ move tmp (body_path c url) ∷ [] in
    elim f.mkdir_error [
      | some e ↦ ([], some e)
      | none ↦ elim f.create_error [
        | some e ↦ ([], some e)
        | none ↦ elim f.write_error [
          | some e ↦ (made ∷ write_to tmp part ∷ remove tmp ∷ [], some e)
          | none ↦ elim f.close_error [
            | some e ↦ (filled ++ remove tmp ∷ [], some e)
            | none ↦ elim f.rename_error [
              | some e ↦ (filled ++ remove tmp ∷ [], some e)
              | none ↦ elim (codec.marshal m) [
                | err e ↦ (moved, some e)
                | ok mb ↦ elim f.meta_error [
                  | some (e, left) ↦ (moved ++ left_op (meta_path c url) left ∷ [], some e)
                  | none ↦ (moved ++ write_to (meta_path c url) mb ∷ [], none)
                ]
              ]
            ]
          ]
        ]
      ]
    ]
