-- ===== src/Plan/Fresh.antt =====
-- src/core/plan.rs: what `verify` has seen of the live sources when it accepts a plan.
use backupsage.Base.{
  ◌≡◌, refl, sym, ap, subst, arith, true, Option, none, some, List, [], ◌∷◌, All, All-imp, ok,
  >>=-eq-ok, ◌∙◌,
}
use backupsage.Base.Order.{eqb_iff, nat_ord, int_ord, list_ord, option_ord, pair_ord}
use backupsage.Base.SortedMap.{All-lookup}
use backupsage.Coverage.{Bytes}
use backupsage.Plan.Types.{
  ContentMode, SourceType, Fingerprint, archive_blake3, no_fingerprint, SourceBinding, Root,
  SourceRef, EntryKey, Plan,
}
use backupsage.Plan.Hex.{join_parts}
use backupsage.Plan.Ids.{entry_key}
use backupsage.Plan.Canonical.{verify_derived}
use backupsage.Plan.Invariants.{find_root, invariants_hold}
use backupsage.Plan.Verify.{
  LiveSource, LiveEntry, PlanState, same_mode, same_type, check_live_fingerprint, check_live_source,
  check_live_entry, Entries, referenced_entries, verify_source, verify_sources, verify_entry,
  verify_entries, verify,
}
use backupsage.Plan.Referenced.{references, referenced_entries-All}

-- The archive is the recorded one, or there was and is none.
abbrev pub IsSameArchive : Fingerprint → Option Bytes → Type 0
IsSameArchive (archive_blake3 value size mtime) live = live ≡ some value
IsSameArchive (no_fingerprint reason) live = live ≡ none

-- A live source has the facts that a binding records.
pub record IsUnchanged (b : SourceBinding) (live : LiveSource) : Type 0 where
  pub same_uuid : live.index_uuid ≡ b.index_uuid
  pub same_schema : live.index_schema_version ≡ b.index_schema_version
  pub same_content_mode : live.content_mode ≡ b.content_mode
  pub same_hash : live.hash_algo ≡ b.hash_algo
  pub same_phash : live.phash_algo ≡ b.phash_algo
  pub same_files : live.files_indexed ≡ b.files_indexed
  pub same_source : live.source_type ≡ b.source_type
  pub same_archive : IsSameArchive b.fingerprint live.archive_blake3

same_mode-eq : (a b : ContentMode) → same_mode a b ≡ true → a ≡ b
same_mode-eq a b h = ground arith

same_type-eq : (a b : SourceType) → same_type a b ≡ true → a ≡ b
same_type-eq a b h = ground arith

check_live_fingerprint-IsSameArchive :
    (f : Fingerprint) (live : Option Bytes)
    → check_live_fingerprint f live ≡ ok tt
    → IsSameArchive f live
unfolding check_live_fingerprint
check_live_fingerprint-IsSameArchive (archive_blake3 value size mtime) live h =
    (eqb_iff live (some value)).0 (ground arith)
check_live_fingerprint-IsSameArchive (no_fingerprint reason) live h = ground arith

check_live_source-IsUnchanged :
    (b : SourceBinding) (live : LiveSource) → check_live_source b live ≡ ok tt → IsUnchanged b live
unfolding check_live_source
check_live_source-IsUnchanged b live h = record {
  same_uuid = (eqb_iff live.index_uuid b.index_uuid).0 (ground arith);
  same_schema = (eqb_iff live.index_schema_version b.index_schema_version).0 (ground arith);
  same_content_mode = same_mode-eq live.content_mode b.content_mode (ground arith);
  same_hash = (eqb_iff live.hash_algo b.hash_algo).0 (ground arith);
  same_phash = (eqb_iff live.phash_algo b.phash_algo).0 (ground arith);
  same_files = ground arith;
  same_source = same_type-eq live.source_type b.source_type (ground arith);
  same_archive =
      check_live_fingerprint-IsSameArchive b.fingerprint live.archive_blake3 (ground arith);
}

check_live_entry-eq :
    (x : SourceRef) (o : Option LiveEntry)
    → check_live_entry x o ≡ ok tt
    → (live : LiveEntry) × (o ≡ some live)
      × (join_parts x.parts_raw ≡ ok live.path_raw)
      × (live.content_hash ≡ x.content_hash)
unfolding check_live_entry
check_live_entry-eq x none h = cc
check_live_entry-eq x (some live) h =
    let (path, j, h₁) = >>=-eq-ok (join_parts x.parts_raw) _ h in
    let same_path = (eqb_iff live.path_raw path).0 (ground arith) in
    (
      live,
      refl,
      j ∙ ap ok (sym same_path),
      (eqb_iff live.content_hash x.content_hash).0 (ground arith),
    )

module _ {S : Type 0} (state : PlanState S) where
  -- Some read of the root's source found it unchanged.
  abbrev pub IsFresh : Root → Option SourceBinding → Type 0
  IsFresh r none = Unit {0}
  IsFresh r (some b) =
      (before : S) × (after : S) × (live : LiveSource) × (state.source r before ≡ ok (live, after))
      × IsUnchanged b live

  -- Some read of the entry, under the first root with its id, found its path and its content.
  abbrev pub IsLive : List Root → SourceRef → Type 0
  IsLive roots s =
      (r : Root) × (find_root s.root_id roots ≡ some r)
      × ((before : S) × (after : S) × (live : LiveEntry) × (state.entry r s.file_id before
            ≡ ok (some live, after))
          × (join_parts s.parts_raw ≡ ok live.path_raw)
          × (live.content_hash ≡ s.content_hash))

  verify_source-IsFresh :
      (r : Root) (o : Option SourceBinding) (s s' : S)
      → verify_source state r o s ≡ ok s'
      → IsFresh r o
  verify_source-IsFresh r none s s' h = tt
  verify_source-IsFresh r (some b) s s' h =
      let ((live, after), read, h₁) = >>=-eq-ok (state.source r s) _ h in
      let (_, same, _) = >>=-eq-ok (check_live_source b live) _ h₁ in
      (s, after, live, read, check_live_source-IsUnchanged b live same)

  verify_sources-IsFresh :
      (roots : List Root) (s s' : S)
      → verify_sources state roots s ≡ ok s'
      → All (λ r. IsFresh r r.source) roots
  unfolding verify_sources
  verify_sources-IsFresh [] s s' h = tt
  verify_sources-IsFresh (r ∷ roots) s s' h =
      let (next, e, h₁) = >>=-eq-ok (verify_source state r r.source s) _ h in
      (verify_source-IsFresh r r.source s next e, verify_sources-IsFresh roots next s' h₁)

  -- What the check of one entry of the map shows.
  abbrev Checked : List Root → EntryKey × SourceRef → Type 0
  Checked roots e = entry_key e.1 ≡ e.0 → IsLive roots e.1

  verify_entry-Checked :
      (roots : List Root) (key : EntryKey) (x : SourceRef) (o : Option Root) (s s' : S)
      → find_root key.0 roots ≡ o
      → verify_entry state o key x s ≡ ok s'
      → Checked roots (key, x)
  verify_entry-Checked roots key x none s s' found h = cc
  verify_entry-Checked roots key x (some r) s s' found h = λ same.
      let ((o, after), read, h₁) = >>=-eq-ok (state.entry r key.1 s) _ h in
      let (_, live_ok, _) = >>=-eq-ok (check_live_entry x o) _ h₁ in
      let (live, is_live, same_path, same_content) = check_live_entry-eq x o live_ok in
      let at_root : find_root x.root_id roots ≡ some r =
        subst (λ k. find_root k.0 roots ≡ some r) (sym same) found in
      let read_here : state.entry r x.file_id s ≡ ok (some live, after) =
        subst (λ k. state.entry r k.1 s ≡ ok (some live, after)) (sym same)
          (subst (λ c. state.entry r key.1 s ≡ ok (c, after)) is_live read) in
      (r, at_root, (s, after, live, read_here, same_path, same_content))

  verify_entries-Checked :
      (roots : List Root) (entries : Entries) (s s' : S)
      → verify_entries state roots entries s ≡ ok s'
      → All (Checked roots) entries
  unfolding verify_entries
  verify_entries-Checked roots [] s s' h = tt
  verify_entries-Checked roots ((key, x) ∷ entries) s s' h =
      let (next, e, h₁) = >>=-eq-ok (verify_entry state (find_root key.0 roots) key x s) _ h in
      (
        verify_entry-Checked roots key x (find_root key.0 roots) s next refl e,
        verify_entries-Checked roots entries next s' h₁,
      )

  -- When `verify` accepts a plan, each source that a root binds has been read and has every fact
  -- that the plan records, and each entry that an action or a group names has been found under
  -- its root, at its path and with its content hash.
  pub verify-IsLive :
      (blake3 : Bytes → Bytes) (p : Plan) (s s' : S)
      → verify state blake3 p s ≡ ok s'
      → All (λ r. IsFresh r r.source) p.roots × All (IsLive p.roots) (references p)
  unfolding verify
  verify-IsLive blake3 p s s' h =
      let (_, _, h₁) = >>=-eq-ok (verify_derived blake3 p) _ h in
      let (_, _, h₂) = >>=-eq-ok (invariants_hold p) _ h₁ in
      let (middle, e, h₃) = >>=-eq-ok (verify_sources state p.roots s) _ h₂ in
      let (entries, f, h₄) = >>=-eq-ok (referenced_entries p) _ h₃ in
      (
        verify_sources-IsFresh p.roots s middle e,
        All-imp
            (λ x held.
              All-lookup (Checked p.roots) entries (entry_key x) x
                (verify_entries-Checked p.roots entries middle s' h₄) held refl)
            (references p) (referenced_entries-All p entries f),
      )
