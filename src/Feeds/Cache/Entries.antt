-- ===== src/Feeds/Cache/Entries.antt =====
-- A store on the disk is the store of the entry of its URL, and touches no other file.
use server_validator.Prelude.{
  ◌≡◌, ◌≢◌, refl, ap, sym, ◌∙◌, List, [], ◌∷◌, ◌++◌, arith, Option, none, some, All,
}
use mathlib.Core.Path.{subst}
use server_validator.Text.{Text}
use server_validator.GoMap.{lookup}
use server_validator.Feeds.Fetch.{CacheMeta, Files, Faults, Codec, body_error, store}
use server_validator.Feeds.Cache.{
  Disk, Cache, body_path, meta_path, entry, FileOp, write_to, apply_op, apply_ops, left_op,
}
use server_validator.Feeds.Cache.Course.{
  lookup-insert_same, lookup-delete_same, apply_op-other, apply_ops-other, IsAt, left_op-IsAt,
  moved, moved-path, moved-other, AreNames, start, early, unencoded, unwritten, whole, ops,
  store_ops-Course,
}

entry_of :
    (c : Cache) (url : Text) (d : Disk) (body meta : Option Text)
    → lookup (body_path c url) d ≡ body
    → lookup (meta_path c url) d ≡ meta
    → entry c url d ≡ record { body = body; meta = meta }
unfolding entry
entry_of c url d body meta b m = cc (b, m)

left_op-found :
    (path : Text) (left : Option Text) (d : Disk)
    → lookup path (apply_op (left_op path left) d) ≡ left
unfolding left_op apply_op
left_op-found path none d = lookup-delete_same path d
left_op-found path (some content) d = lookup-insert_same path content d

module _ (codec : Codec) (f : Faults) (c : Cache) (url tmp part body : Text) (m : CacheMeta)
    (d : Disk) (names : AreNames c url tmp) where
  abbrev after : Disk
  after = moved tmp (body_path c url) body d

  abbrev Refines : List FileOp × Option Text → Type 0
  Refines r =
      (entry c url (apply_ops r.0 d) ≡ (store codec f body m (entry c url d)).0)
      × (r.1 ≡ (store codec f body m (entry c url d)).1)

  abbrev Leaves : List FileOp × Option Text → Type 0
  Leaves r =
      (j : Text)
      → j ≢ tmp
      → j ≢ body_path c url
      → j ≢ meta_path c url
      → lookup j (apply_ops r.0 d) ≡ lookup j d

  -- The entry is found, and the store of an entry makes it, too.
  found-Refines :
      (done : List FileOp) (e : Option Text) (found : Files)
      → entry c url (apply_ops done d) ≡ found
      → store codec f body m (entry c url d) ≡ (found, e)
      → Refines (done, e)
  found-Refines done e found h k = (h ∙ sym (ap (λ p. p.0) k), sym (ap (λ p. p.1) k))

  early-Refines :
      (e : Text) (done : List FileOp)
      → body_error f ≡ some e
      → All (IsAt tmp) done
      → Refines (done, some e)
  unfolding store entry
  early-Refines e done h at =
      found-Refines done (some e) (entry c url d)
        (entry_of c url (apply_ops done d) _ _
          (apply_ops-other tmp (body_path c url) done d at names.body_apart)
          (apply_ops-other tmp (meta_path c url) done d at names.meta_apart))
        (ground arith)

  moved-meta : lookup (meta_path c url) after ≡ lookup (meta_path c url) d
  moved-meta =
      moved-other tmp (body_path c url) body (meta_path c url) d names.meta_apart
        (λ e. names.paths_apart (sym e))

  -- Behind the rename: one more operation on the meta file.
  last-body :
      (op : FileOp)
      → IsAt (meta_path c url) op
      → lookup (body_path c url) (apply_op op after) ≡ some body
  last-body op at =
      apply_op-other (meta_path c url) (body_path c url) op after at names.paths_apart
      ∙ moved-path tmp (body_path c url) body d

  last-other :
      (op : FileOp)
      → IsAt (meta_path c url) op
      → (j : Text) → j ≢ tmp
      → j ≢ body_path c url
      → j ≢ meta_path c url
      → lookup j (apply_op op after) ≡ lookup j d
  last-other op at j n k l =
      apply_op-other (meta_path c url) j op after at l
      ∙ moved-other tmp (body_path c url) body j d n k

  written :
      (mb : Text)
      → lookup (meta_path c url) (apply_op (write_to (meta_path c url) mb) after) ≡ some mb
  unfolding apply_op
  written mb = lookup-insert_same (meta_path c url) mb after

  -- A store on the disk leaves the entry of its URL as the store of an entry does, with the same
  -- error, and every other file but the temporary one as it was.
  pub store_ops_lem :
      Refines (ops codec f c url tmp part body m) × Leaves (ops codec f c url tmp part body m)
  unfolding apply_ops store entry
  store_ops_lem = elim (store_ops-Course codec f c url tmp part body m) [
    | early e done r h at ↦
        subst (λ x. Refines x × Leaves x) (sym r)
          (early-Refines e done h at, λ j n k l. apply_ops-other tmp j done d at n)
    | unencoded e r h q ↦
        subst (λ x. Refines x × Leaves x) (sym r)
          (
            found-Refines (start codec f c url tmp part body m) (some e) _
                (entry_of c url after _ _ (moved-path tmp (body_path c url) body d) moved-meta)
                (ground arith),
            λ j n k l. moved-other tmp (body_path c url) body j d n k,
          )
    | unwritten mb e left r h q l ↦
        subst (λ x. Refines x × Leaves x) (sym r)
          (
            found-Refines
                (start codec f c url tmp part body m ++ left_op (meta_path c url) left ∷ [])
                (some e) _
                (entry_of c url (apply_op (left_op (meta_path c url) left) after) _ _
                  (last-body (left_op (meta_path c url) left) (left_op-IsAt (meta_path c url) left))
                  (left_op-found (meta_path c url) left after))
                (ground arith),
            last-other (left_op (meta_path c url) left) (left_op-IsAt (meta_path c url) left),
          )
    | whole mb r h q l ↦
        subst (λ x. Refines x × Leaves x) (sym r)
          (
            found-Refines
                (start codec f c url tmp part body m ++ write_to (meta_path c url) mb ∷ []) none _
                (entry_of c url (apply_op (write_to (meta_path c url) mb) after) _ _
                  (last-body (write_to (meta_path c url) mb) refl) (written mb))
                (ground arith),
            last-other (write_to (meta_path c url) mb) refl,
          )
  ]
