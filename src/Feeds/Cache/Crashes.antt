-- ===== src/Feeds/Cache/Crashes.antt =====
-- A process that is killed during a store leaves no partial body.
use server_validator.Prelude.{
  ℕ, zero, suc, ◌≡◌, ◌≢◌, ◌⊎◌, inl, inr, refl, sym, ◌∙◌, List, [], ◌∷◌, ◌++◌, Option, none, some,
  All, take,
}
use mathlib.Core.Path.{subst}
use server_validator.Text.{Text}
use server_validator.GoMap.{lookup}
use server_validator.Feeds.Fetch.{CacheMeta, Faults, Codec}
use server_validator.Feeds.Cache.{
  Disk, Cache, body_path, meta_path, FileOp, write_to, move, remove, apply_op, killed_at, left_op,
}
use server_validator.Feeds.Cache.Course.{
  lookup-insert_other, apply_op-other, IsAt, left_op-IsAt, moved, moved-path, AreNames, start,
  early, unencoded, unwritten, whole, ops, store_ops-Course,
}

-- A kill among operations on one file changes no other.
killed_at-other :
    (path j : Text) (n : ℕ) (stop : Option ℕ) (done : List FileOp) (d : Disk)
    → All (IsAt path) done
    → j ≢ path
    → lookup j (killed_at n stop done d) ≡ lookup j d
unfolding killed_at
killed_at-other path j n stop [] d at k = refl
killed_at-other path j (suc n) stop (op ∷ done) d at k =
    killed_at-other path j n stop done (apply_op op d) at.1 k ∙ apply_op-other path j op d at.0 k
killed_at-other path j zero none (op ∷ done) d at k = refl
killed_at-other path j zero (some b) (write_to p content ∷ done) d at k =
    lookup-insert_other j p (take b content) d (λ e. k (e ∙ at.0))
killed_at-other path j zero (some b) (move from to ∷ done) d at k = refl
killed_at-other path j zero (some b) (remove p ∷ done) d at k = refl

module _ (codec : Codec) (f : Faults) (c : Cache) (url tmp part body : Text) (m : CacheMeta)
    (d : Disk) (names : AreNames c url tmp) where
  -- Both files are as they were, or the body is whole.
  abbrev Safe : Disk → Type 0
  Safe d' =
      ((lookup (body_path c url) d' ≡ lookup (body_path c url) d)
        × (lookup (meta_path c url) d' ≡ lookup (meta_path c url) d))
      ⊎ (lookup (body_path c url) d' ≡ some body)

  early-Safe :
      (n : ℕ) (stop : Option ℕ) (done : List FileOp)
      → All (IsAt tmp) done
      → Safe (killed_at n stop done d)
  early-Safe n stop done at = inl (
    killed_at-other tmp (body_path c url) n stop done d at names.body_apart,
    killed_at-other tmp (meta_path c url) n stop done d at names.meta_apart,
  )

  abbrev filled : List FileOp
  filled = write_to tmp [] ∷ write_to tmp body ∷ []

  -- A kill before the rename, or among operations on the meta file behind it.
  late-Safe :
      (n : ℕ) (stop : Option ℕ) (last : List FileOp)
      → All (IsAt (meta_path c url)) last
      → Safe (killed_at n stop (start codec f c url tmp part body m ++ last) d)
  unfolding killed_at
  late-Safe zero none last at = inl (refl, refl)
  late-Safe zero (some b) last at = early-Safe 0 (some b) filled (refl, (refl, tt))
  late-Safe (suc zero) none last at = early-Safe 1 none filled (refl, (refl, tt))
  late-Safe (suc zero) (some b) last at = early-Safe 1 (some b) filled (refl, (refl, tt))
  late-Safe (suc (suc zero)) none last at = early-Safe 2 none filled (refl, (refl, tt))
  late-Safe (suc (suc zero)) (some b) last at = early-Safe 2 (some b) filled (refl, (refl, tt))
  late-Safe (suc (suc (suc n))) stop last at = inr (
      killed_at-other (meta_path c url) (body_path c url) n stop last
        (moved tmp (body_path c url) body d) at names.paths_apart
      ∙ moved-path tmp (body_path c url) body d)

  -- If the process is killed at any point of a store, in the middle of a write as well, and the
  -- system goes on, so that it keeps what the finished operations did, then the files of the entry
  -- are as they were, or the body is the whole new one.
  pub store_ops-Safe :
      (n : ℕ) (stop : Option ℕ) → Safe (killed_at n stop (ops codec f c url tmp part body m).0 d)
  store_ops-Safe n stop = elim (store_ops-Course codec f c url tmp part body m) [
    | early e done r h at ↦
        subst (λ x. Safe (killed_at n stop x.0 d)) (sym r) (early-Safe n stop done at)
    | unencoded e r h q ↦
        subst (λ x. Safe (killed_at n stop x.0 d)) (sym r) (late-Safe n stop [] tt)
    | unwritten mb e left r h q l ↦
        subst (λ x. Safe (killed_at n stop x.0 d)) (sym r)
          (late-Safe n stop (left_op (meta_path c url) left ∷ [])
            (left_op-IsAt (meta_path c url) left, tt))
    | whole mb r h q l ↦
        subst (λ x. Safe (killed_at n stop x.0 d)) (sym r)
          (late-Safe n stop (write_to (meta_path c url) mb ∷ []) (refl, tt))
  ]
