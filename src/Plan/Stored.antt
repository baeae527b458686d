-- ===== src/Plan/Stored.antt =====
-- src/core/plan.rs: a plan is read only from a regular file.
use backupsage.Base.{
  ◌≡◌, ap, subst, arith, ◌≤◌, ltb, true, false, not, Option, none, some, [], ◌∷◌, Result, ok, err,
  >>=-eq-ok, ok-injective, bail_if,
}
use backupsage.Base.Order.{eqb, nat_ord, list_ord}
use backupsage.Coverage.{Bytes}
use backupsage.Plan.Types.{Plan}
use backupsage.Plan.Hex.{PlanError, newer_plan_version}
use backupsage.Plan.Canonical.{verify_derived}
use backupsage.Plan.Invariants.{invariants_hold}
use backupsage.Plan.Load.{
  plan_schema_version, Json, parsed, from_canonical_bytes, Metadata, Opened, FileSystem, LoadError,
  stdin_path, cannot_inspect, symlink_path, not_regular, cannot_open, cannot_inspect_opened,
  opened_not_regular, changed_between, cannot_read, or_fail, in_plan, same_file,
  load_from_regular_file,
}

module _ (blake3 : Bytes → Bytes) (json : Json) where
  -- What the reader accepts is the plan in the bytes, of a version that it knows, and both checks
  -- accept it.
  pub record IsRead (bytes : Bytes) (p : Plan) : Type 0 where
    pub parse_eq : json.parse bytes ≡ some p
    pub known_version : p.plan_schema_version ≤ plan_schema_version
    pub derived_fields : verify_derived blake3 p ≡ ok tt
    pub invariants : invariants_hold p ≡ ok tt

  from_canonical_bytes-IsRead :
      (bytes : Bytes) (p : Plan) → from_canonical_bytes blake3 json bytes ≡ ok p → IsRead bytes p
  unfolding from_canonical_bytes
  from_canonical_bytes-IsRead bytes p h =
      let (q, e, h₁) = >>=-eq-ok (parsed (json.parse bytes)) _ h in
      let (_, version, h₂) =
        >>=-eq-ok (bail_if (ltb plan_schema_version q.plan_schema_version) newer_plan_version) _
          h₁ in
      let (_, derived, h₃) = >>=-eq-ok (verify_derived blake3 q) _ h₂ in
      let (_, holds, h₄) = >>=-eq-ok (invariants_hold q) _ h₃ in
      let found = parsed-eq (json.parse bytes) q e in
      subst (IsRead bytes) (ok-injective h₄) (record {
        parse_eq = found;
        known_version = ground (arith, version);
        derived_fields = derived;
        invariants = holds;
      })
    where
      parsed-eq : (o : Option Plan) (q : Plan) → parsed o ≡ ok q → o ≡ some q
      parsed-eq none q e = cc
      parsed-eq (some r) q e = ap some (ok-injective e)

  module _ (files : FileSystem) where
    -- A path names a regular file, no link, and the file that is open is the same one.
    pub record IsLoaded (path : Bytes) (p : Plan) : Type 0 where
      pub before : Metadata
      pub opened : Opened
      pub now : Metadata
      pub bytes : Bytes
      pub not_stdin : eqb path (b'-' ∷ []) ≡ false
      pub inspected : files.symlink_metadata path ≡ some before
      pub no_link : before.is_symlink ≡ false
      pub regular : before.is_file ≡ true
      pub open_eq : files.open_file path ≡ some opened
      pub inspected_open : opened.metadata ≡ some now
      pub still_regular : now.is_file ≡ true
      pub same_dev : before.dev ≡ now.dev
      pub same_ino : before.ino ≡ now.ino
      pub content_eq : opened.content ≡ some bytes
      pub is_read : IsRead bytes p

    or_fail-eq :
        {A : Type 0} (e : LoadError) (o : Option A) (a : A) → or_fail e o ≡ ok a → o ≡ some a
    or_fail-eq e none a h = cc
    or_fail-eq e (some b) a h = ap some (ok-injective h)

    in_plan-eq : {A : Type 0} (r : Result PlanError A) (a : A) → in_plan r ≡ ok a → r ≡ ok a
    in_plan-eq (ok b) a h = ap ok (ok-injective h)
    in_plan-eq (err e) a h = cc

    -- A plan is loaded only from a path, other than `-`, of a regular file that is no link, when the
    -- file that was opened is the same regular file; and it is the plan of its bytes, of a known
    -- version and accepted by both checks.
    pub load-IsLoaded :
        (path : Bytes) (p : Plan)
        → load_from_regular_file blake3 json files path ≡ ok p
        → IsLoaded path p
    unfolding load_from_regular_file
    load-IsLoaded path p h =
        let (_, a, h₁) = >>=-eq-ok (bail_if (eqb path (b'-' ∷ [])) stdin_path) _ h in
        let (seen, b, h₂) = >>=-eq-ok (or_fail cannot_inspect (files.symlink_metadata path)) _ h₁ in
        let (_, c, h₃) = >>=-eq-ok (bail_if seen.is_symlink symlink_path) _ h₂ in
        let (_, d, h₄) = >>=-eq-ok (bail_if (not seen.is_file) not_regular) _ h₃ in
        let (file, e, h₅) = >>=-eq-ok (or_fail cannot_open (files.open_file path)) _ h₄ in
        let (after, f, h₆) = >>=-eq-ok (or_fail cannot_inspect_opened file.metadata) _ h₅ in
        let (_, g, h₇) = >>=-eq-ok (bail_if (not after.is_file) opened_not_regular) _ h₆ in
        let (_, i, h₈) = >>=-eq-ok (bail_if (not (same_file seen after)) changed_between) _ h₇ in
        let (content, j, h₉) = >>=-eq-ok (or_fail cannot_read file.content) _ h₈ in
        record {
          before = seen;
          opened = file;
          now = after;
          bytes = content;
          not_stdin = ground arith;
          inspected = or_fail-eq cannot_inspect (files.symlink_metadata path) seen b;
          no_link = ground arith;
          regular = ground arith;
          open_eq = or_fail-eq cannot_open (files.open_file path) file e;
          inspected_open = or_fail-eq cannot_inspect_opened file.metadata after f;
          still_regular = ground arith;
          same_dev = ground arith;
          same_ino = ground arith;
          content_eq = or_fail-eq cannot_read file.content content j;
          is_read =
              from_canonical_bytes-IsRead content p
                (in_plan-eq (from_canonical_bytes blake3 json content) p h₉);
        }
