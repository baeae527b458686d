-- ===== src/CoverageReport/Filter.antt =====
-- src/core/coverage_report.rs: `PathFilter`. SQLite's GLOB is a parameter.
use text.Mathlib.Text.{◌==◌ as str_eq}
use backupsage.Base.{
  ℕ, ◌+◌, ◌-◌, leb, String, Bool, true, false, not, ◌&&◌, ◌||◌, Option, none, some, is_some, List,
  [], ◌∷◌, map, any, filter, length, drop, if◌then◌else◌, Result, ok, err, ◌>>=◌,
}
use backupsage.Base.Int.{ℤ}
use backupsage.Base.Order.{eqb, nat_ord, int_ord, pair_ord, list_ord}
use backupsage.Base.SortedMap.{SortedMap, lookup, upsert}
use backupsage.Coverage.{Bytes, RowRef}
use backupsage.Legacy.{from_utf8_lossy}
use backupsage.CoverageInput.{LoadedSource}
use backupsage.CoverageReport.Document.{CoverageScope}

pub data ReportError : Type 0 where
  unknown_kind glob_failed : String → ReportError
  ungrouped_content : ReportError

-- `SELECT path GLOB pattern`
abbrev pub Glob : Type 0
Glob = Bytes → Bytes → Result ReportError Bool

abbrev pub kinds_known : List String
kinds_known = "image" ∷ "raw" ∷ "video" ∷ "text" ∷ "binary" ∷ []

abbrev pub is_alphanumeric : ℕ → Bool
is_alphanumeric b =
    (leb b'0' b && leb b b'9') || ((leb b'A' b && leb b b'Z') || (leb b'a' b && leb b b'z'))

abbrev pub lower : ℕ → ℕ
lower b = if leb b'A' b && leb b b'Z' then b + 32 else b

-- One extension, as dedup cleans it.
unfoldable pub clean_ext : Bytes → Bytes
clean_ext e = map lower (filter is_alphanumeric e)

-- Every row's recorded kind.
abbrev pub RowKinds : Type 0
RowKinds = SortedMap (ℤ × ℤ) String

abbrev pub add_kinds : ℤ → SortedMap ℤ String → RowKinds → RowKinds
add_kinds source [] m = m
add_kinds source ((file, kind) ∷ kinds) m =
    add_kinds source kinds (upsert (source, file) (λ _. kind) m)

abbrev pub row_kinds : List LoadedSource → RowKinds → RowKinds
row_kinds [] m = m
row_kinds (s ∷ sources) m = row_kinds sources (add_kinds s.source_id s.kinds m)

pub record PathFilter : Type 0 where
  pub exts : List Bytes
  pub glob : Option Bytes
  pub kind : Option (String × RowKinds)

abbrev pub wanted_kind :
    Option String → List LoadedSource → Result ReportError (Option (String × RowKinds))
wanted_kind none sources = ok none
wanted_kind (some k) sources =
    if not (any (str_eq k) kinds_known)
    then err (unknown_kind k)
    else ok (some (k, row_kinds sources []))

-- `PathFilter::new`
unfoldable pub new_filter : CoverageScope → List LoadedSource → Result ReportError PathFilter
new_filter scope sources = do
  kind ← wanted_kind scope.kind sources
  ok (record { exts = map clean_ext scope.exts; glob = scope.path_glob; kind = kind })

abbrev pub is_empty {ℓ} : {A : Type ℓ} → List A → Bool
is_empty [] = true
is_empty (_ ∷ _) = false

unfoldable pub is_active : PathFilter → Bool
is_active f = not (is_empty f.exts) || (is_some f.glob || is_some f.kind)

abbrev pub has_kind : String → Option String → Bool
has_kind want none = false
has_kind want (some kind) = str_eq kind want

unfoldable pub matches_kind : Option (String × RowKinds) → RowRef → Bool
matches_kind none row = true
matches_kind (some (want, kinds)) row = has_kind want (lookup (row.source_id, row.file_id) kinds)

-- The path ends in a dot and the extension, in either case.
unfoldable pub has_ext : Bytes → Bytes → Bool
has_ext path e =
    let want = b'.' ∷ e in
    leb (length want) (length path)
    && eqb (map lower (drop (length path - length want) path)) (map lower want)

unfoldable pub matches_ext : List Bytes → Bytes → Bool
matches_ext [] path = true
matches_ext (e ∷ exts) path = any (has_ext path) (e ∷ exts)

unfoldable pub matches_glob : Glob → Option Bytes → Bytes → Result ReportError Bool
matches_glob glob none path = ok true
matches_glob glob (some pattern) path = glob (from_utf8_lossy path) pattern

unfoldable pub matches : Glob → PathFilter → RowRef → Result ReportError Bool
matches glob f row =
    if not (matches_kind f.kind row)
    then ok false
    else if not (matches_ext f.exts row.path_raw)
    then ok false
    else matches_glob glob f.glob row.path_raw

-- The walk stops at the first row that matches.
unfoldable pub any_matches : Glob → PathFilter → List RowRef → Result ReportError Bool
any_matches glob f [] = ok false
any_matches glob f (row ∷ rows) = do
  hit ← matches glob f row
  elim hit [ true ↦ ok true | false ↦ any_matches glob f rows ]
