-- ===== src/Fies/Row/Address.antt =====
-- The addresses of a converted row.
use fie_importer.Prelude.{◌≡◌, ◌↔◌, ◌⊎◌, inl, inr, some, ◌++◌, arith, length, length-append}
use fie_importer.Prelude.Bytes.{Bytes}
use fie_importer.Fies.Row.{to_ipv6, mapped_prefix}

-- The table's form of an address: 16 bytes, an IPv4 address of 4 bytes behind the mapped prefix.
abbrev pub IsTableForm : Bytes → Bytes → Type 0
IsTableForm b v = ((length b ≡ 4) × (v ≡ mapped_prefix ++ b)) ⊎ ((length b ≡ 16) × (v ≡ b))

-- An address becomes a table address exactly when it has 4 bytes, and then it is put behind the
-- IPv4-mapped prefix, or 16 bytes, and then it stays as it is; any other length becomes NULL.
pub to_ipv6_iff : (b v : Bytes) → (to_ipv6 b ≡ some v) ↔ IsTableForm b v
unfolding to_ipv6
to_ipv6_iff b v = (ground arith, ground arith)

-- A table address has 16 bytes.
pub length-to_ipv6 : (b v : Bytes) → to_ipv6 b ≡ some v → length v ≡ 16
length-to_ipv6 b v h = elim ((to_ipv6_iff b v).0 h) [
  | inl (four, e) ↦ rw (e, length-append) (omega arith)
  | inr (long, e) ↦ rw e long
]
