-- ===== src/Feeds/Cache/Course.antt =====
-- How a store can end, and what its operations change.
use server_validator.Prelude.{
  ◌≡◌, ◌≢◌, inl, inr, refl, ap, ◌∙◌, List, [], ◌∷◌, ◌++◌, arith, Option, none, some, Option-cases,
  All, false,
}
use server_validator.Text.{Text, text_eq, text_eq-cases, text_eq_refl}
use server_validator.GoMap.{lookup, insert, delete, lookup-insert, lookup-delete}
use server_validator.Sink.Dsn.{ok, err, Result-cases}
use server_validator.Feeds.Fetch.{CacheMeta, Faults, Codec, body_error}
use server_validator.Feeds.Cache.{
  Disk, Cache, body_path, meta_path, FileOp, write_to, move, remove, apply_op, apply_ops, left_op,
  store_ops,
}

text_ne : (s t : Text) → s ≢ t → text_eq s t ≡ false
text_ne s t n = elim (text_eq-cases s t) [ inl e ↦ absurd (n e) | inr e ↦ e ]

pub lookup-insert_same : (k v : Text) (d : Disk) → lookup k (insert k v d) ≡ some v
lookup-insert_same k v d = lookup-insert k k v d ∙ rw (text_eq_refl k) refl

pub lookup-insert_other : (j k v : Text) (d : Disk) → j ≢ k → lookup j (insert k v d) ≡ lookup j d
lookup-insert_other j k v d n = lookup-insert j k v d ∙ rw (text_ne j k n) refl

lookup-delete_other : (j k : Text) (d : Disk) → j ≢ k → lookup j (delete k d) ≡ lookup j d
lookup-delete_other j k d n = lookup-delete j k d ∙ rw (text_ne j k n) refl

pub lookup-delete_same : (k : Text) (d : Disk) → lookup k (delete k d) ≡ none
lookup-delete_same k d = lookup-delete k k d ∙ rw (text_eq_refl k) refl

-- The operation changes the file of this name only.
abbrev pub IsAt : Text → FileOp → Type 0
IsAt path (write_to p content) = p ≡ path
IsAt path (move from to) = ⊥
IsAt path (remove p) = p ≡ path

pub apply_op-other :
    (path j : Text) (op : FileOp) (d : Disk)
    → IsAt path op
    → j ≢ path
    → lookup j (apply_op op d) ≡ lookup j d
unfolding apply_op
apply_op-other path j (write_to p content) d a n =
    lookup-insert_other j p content d (λ e. n (e ∙ a))
apply_op-other path j (move from to) d a n = absurd a
apply_op-other path j (remove p) d a n = lookup-delete_other j p d (λ e. n (e ∙ a))

pub apply_ops-other :
    (path j : Text) (ops : List FileOp) (d : Disk)
    → All (IsAt path) ops
    → j ≢ path
    → lookup j (apply_ops ops d) ≡ lookup j d
unfolding apply_ops
apply_ops-other path j [] d a n = refl
apply_ops-other path j (op ∷ ops) d a n =
    apply_ops-other path j ops (apply_op op d) a.1 n ∙ apply_op-other path j op d a.0 n

pub left_op-IsAt : (path : Text) (left : Option Text) → IsAt path (left_op path left)
unfolding left_op
left_op-IsAt path none = refl
left_op-IsAt path (some content) = refl

apply_op-move :
    (from to content : Text) (d : Disk)
    → lookup from d ≡ some content
    → apply_op (move from to) d ≡ insert to content (delete from d)
unfolding apply_op
apply_op-move from to content d h = rw (h, apply_op) refl

-- The disk behind the move of the temporary file over the body.
abbrev pub moved : Text → Text → Text → Disk → Disk
moved tmp path body d =
    apply_op (move tmp path) (apply_op (write_to tmp body) (apply_op (write_to tmp []) d))

pub moved-path : (tmp path body : Text) (d : Disk) → lookup path (moved tmp path body d) ≡ some body
unfolding apply_op
moved-path tmp path body d =
    let filled = insert tmp body (insert tmp [] d) in
    ap (λ x. lookup path x)
      (apply_op-move tmp path body filled (lookup-insert_same tmp body (insert tmp [] d)))
    ∙ lookup-insert_same path body (delete tmp filled)

pub moved-other :
    (tmp path body j : Text) (d : Disk)
    → j ≢ tmp
    → j ≢ path
    → lookup j (moved tmp path body d) ≡ lookup j d
unfolding apply_op
moved-other tmp path body j d n k =
    let filled = insert tmp body (insert tmp [] d) in
    ap (λ x. lookup j x)
      (apply_op-move tmp path body filled (lookup-insert_same tmp body (insert tmp [] d)))
    ∙ lookup-insert_other j path body (delete tmp filled) k
    ∙ lookup-delete_other j tmp filled n
    ∙ lookup-insert_other j tmp body (insert tmp [] d) n
    ∙ lookup-insert_other j tmp [] d n

-- The names that a store uses are different.
pub record AreNames (c : Cache) (url tmp : Text) : Type 0 where
  pub body_apart : body_path c url ≢ tmp
  pub meta_apart : meta_path c url ≢ tmp
  pub paths_apart : body_path c url ≢ meta_path c url

module _ (codec : Codec) (f : Faults) (c : Cache) (url tmp part body : Text) (m : CacheMeta) where
  -- The operations up to the rename.
  abbrev pub start : List FileOp
  start = write_to tmp [] ∷ write_to tmp body ∷ move tmp (body_path c url) ∷ []

  -- The ways in which a store can end: before the rename, or behind it with an entry whose meta data
  -- cannot be encoded, cannot be written, or are written.
  pub data Course (r : List FileOp × Option Text) : Type 0 where
    early :
        (e : Text) (done : List FileOp)
        → r ≡ (done, some e)
        → body_error f ≡ some e
        → All (IsAt tmp) done
        → Course r
    unencoded :
        (e : Text) → r ≡ (start, some e) → body_error f ≡ none → codec.marshal m ≡ err e → Course r
    unwritten :
        (mb e : Text) (left : Option Text)
        → r ≡ (start ++ left_op (meta_path c url) left ∷ [], some e)
        → body_error f ≡ none
        → codec.marshal m ≡ ok mb
        → f.meta_error ≡ some (e, left)
        → Course r
    whole :
        (mb : Text)
        → r ≡ (start ++ write_to (meta_path c url) mb ∷ [], none)
        → body_error f ≡ none
        → codec.marshal m ≡ ok mb
        → f.meta_error ≡ none
        → Course r

  abbrev pub ops : List FileOp × Option Text
  ops = store_ops codec f c url tmp part body m

  renamed-Course :
      f.mkdir_error ≡ none
      → f.create_error ≡ none
      → f.write_error ≡ none
      → f.close_error ≡ none
      → f.rename_error ≡ none
      → Course ops
  unfolding store_ops body_error
  renamed-Course h1 h2 h3 h4 h5 = elim (Result-cases (codec.marshal m)) [
    | inl (e, q) ↦ unencoded e (ground arith) (ground arith) q
    | inr (mb, q) ↦ elim (Option-cases f.meta_error) [
      | inl h6 ↦ whole mb (ground arith) (ground arith) q h6
      | inr ((e, left), h6) ↦ unwritten mb e left (ground arith) (ground arith) q h6
    ]
  ]

  pub store_ops-Course : Course ops
  unfolding store_ops body_error
  store_ops-Course = elim (Option-cases f.mkdir_error) [
    | inr (e, h) ↦ early e [] (ground arith) (ground arith) tt
    | inl h1 ↦ elim (Option-cases f.create_error) [
      | inr (e, h) ↦ early e [] (ground arith) (ground arith) tt
      | inl h2 ↦ elim (Option-cases f.write_error) [
        | inr (e, h) ↦
            early e (write_to tmp [] ∷ write_to tmp part ∷ remove tmp ∷ []) (ground arith)
              (ground arith) (refl, (refl, (refl, tt)))
        | inl h3 ↦ elim (Option-cases f.close_error) [
          | inr (e, h) ↦
              early e (write_to tmp [] ∷ write_to tmp body ∷ remove tmp ∷ []) (ground arith)
                (ground arith) (refl, (refl, (refl, tt)))
          | inl h4 ↦ elim (Option-cases f.rename_error) [
            | inr (e, h) ↦
                early e (write_to tmp [] ∷ write_to tmp body ∷ remove tmp ∷ []) (ground arith)
                  (ground arith) (refl, (refl, (refl, tt)))
            | inl h5 ↦ renamed-Course h1 h2 h3 h4 h5
          ]
        ]
      ]
    ]
  ]
