-- ===== src/Plan/Load.antt =====
-- src/core/plan.rs: how a plan becomes bytes and how bytes become a plan. `serde_json` and the file
-- system are the caller's parameters.
use backupsage.Base.{
  ℕ, ◌==◌, ltb, Bool, not, ◌&&◌, Option, none, some, [], ◌∷◌, ◌++◌, Result, ok, err, ◌>>=◌, ◌>>◌,
  bail_if,
}
use backupsage.Base.Order.{eqb, nat_ord, list_ord}
use backupsage.Coverage.{Bytes}
use backupsage.Diff.{to_hex}
use backupsage.Plan.Types.{Plan}
use backupsage.Plan.Hex.{PlanError, newer_plan_version, invalid_json}
use backupsage.Plan.Canonical.{verify_derived}
use backupsage.Plan.Invariants.{invariants_hold}

abbrev pub plan_schema_version : ℕ
plan_schema_version = 1

-- `to_string_pretty` and `from_slice`, at `Plan`.
pub record Json : Type 0 where
  pub print : Plan → Bytes
  pub parse : Bytes → Option Plan

abbrev pub parsed : Option Plan → Result PlanError Plan
parsed none = err invalid_json
parsed (some p) = ok p

module _ (blake3 : Bytes → Bytes) (json : Json) where
  unfoldable pub to_canonical_bytes : Plan → Result PlanError Bytes
  to_canonical_bytes p = do
    verify_derived blake3 p
    invariants_hold p
    ok (json.print p ++ b'\n' ∷ [])

  unfoldable pub from_canonical_bytes : Bytes → Result PlanError Plan
  from_canonical_bytes bytes = do
    p ← parsed (json.parse bytes)
    bail_if (ltb plan_schema_version p.plan_schema_version) newer_plan_version
    verify_derived blake3 p
    invariants_hold p
    ok p

-- The identity of a plan file.
unfoldable pub digest : (Bytes → Bytes) → Bytes → Bytes
digest blake3 bytes = b'b' ∷ b'3' ∷ b':' ∷ to_hex (blake3 bytes)

-- What a call of `symlink_metadata`, or of `metadata` on an open file, says.
pub record Metadata : Type 0 where
  pub is_symlink : Bool
  pub is_file : Bool
  pub dev : ℕ
  pub ino : ℕ

-- An open file: its metadata and its content, each where it can be read.
pub record Opened : Type 0 where
  pub metadata : Option Metadata
  pub content : Option Bytes

pub record FileSystem : Type 0 where
  pub symlink_metadata : Bytes → Option Metadata
  pub open_file : Bytes → Option Opened

pub data LoadError : Type 0 where
  stdin_path cannot_inspect symlink_path not_regular cannot_open cannot_inspect_opened
        opened_not_regular changed_between cannot_read :
      LoadError
  invalid_plan : PlanError → LoadError

abbrev pub or_fail {ℓ} : {A : Type ℓ} → LoadError → Option A → Result LoadError A
or_fail e none = err e
or_fail e (some a) = ok a

abbrev pub in_plan {ℓ} : {A : Type ℓ} → Result PlanError A → Result LoadError A
in_plan (ok a) = ok a
in_plan (err e) = err (invalid_plan e)

abbrev pub same_file : Metadata → Metadata → Bool
same_file a b = a.dev == b.dev && a.ino == b.ino

module _ (blake3 : Bytes → Bytes) (json : Json) (files : FileSystem) where
  unfoldable pub load_from_regular_file : Bytes → Result LoadError Plan
  load_from_regular_file path = do
    bail_if (eqb path (b'-' ∷ [])) stdin_path
    seen ← or_fail cannot_inspect (files.symlink_metadata path)
    bail_if seen.is_symlink symlink_path
    bail_if (not seen.is_file) not_regular
    opened ← or_fail cannot_open (files.open_file path)
    now ← or_fail cannot_inspect_opened opened.metadata
    bail_if (not now.is_file) opened_not_regular
    bail_if (not (same_file seen now)) changed_between
    bytes ← or_fail cannot_read opened.content
    in_plan (from_canonical_bytes blake3 json bytes)
