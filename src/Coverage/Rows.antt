-- ===== src/Coverage/Rows.antt =====
-- src/core/coverage.rs: what one row proves, and the unhashed rows of a source.
use backupsage.Base.{ℕ, ◌+◌, Option, none, some, if◌then◌else◌, bit_or}
use backupsage.Base.Order.{nat_ord}
use backupsage.Base.SortedMap.{SortedMap, lookup, upsert}
use backupsage.Store.Flags
use backupsage.Legacy.{name_uncertain}
use backupsage.Coverage.Types.{
  CoverageRow, UnknownContentReason, read_error, unsupported_sparse, pax_unparsed, not_hashed,
  legacy_name_uncertain,
}

-- `UNTRUSTED_HASH`
abbrev pub untrusted_hash : ℕ
untrusted_hash = bit_or Flags.read_error Flags.pax_unparsed

abbrev untrusted_size : ℕ
untrusted_size = bit_or (bit_or Flags.sparse Flags.pax_unparsed) Flags.read_error

-- A row's size, when it is the length of its content.
unfoldable pub trusted_size : CoverageRow → Option ℕ
trusted_size row = if Flags.has row.flags untrusted_size then none else row.size

-- The unhashed rows of one source.
pub record UnknownRows : Type 0 where
  pub untrusted : ℕ
  pub by_size : SortedMap ℕ ℕ
  pub trusted : ℕ

abbrev pub or_zero : Option ℕ → ℕ
or_zero none = 0
or_zero (some n) = n

unfoldable pub add : UnknownRows → Option ℕ → UnknownRows
add u (some n) = record u {
  by_size = upsert n (λ old. or_zero old + 1) u.by_size;
  trusted = u.trusted + 1;
}
add u none = record u { untrusted = u.untrusted + 1 }

-- How many of the rows could hold content of this length.
unfoldable pub could_match : UnknownRows → Option ℕ → ℕ
could_match u (some n) = u.untrusted + or_zero (lookup n u.by_size)
could_match u none = u.untrusted + u.trusted

-- Why a file row is unknown content.
unfoldable pub unknown_reason : CoverageRow → UnknownContentReason
unknown_reason row =
    if Flags.has row.flags Flags.read_error
    then read_error
    else if Flags.has row.flags Flags.pax_unparsed
    then pax_unparsed
    else if Flags.has row.flags Flags.sparse
    then unsupported_sparse
    else if name_uncertain row.flags
    then legacy_name_uncertain
    else not_hashed
