-- ===== src/Net.antt =====
-- Go's `net/netip` and `net` addresses, as far as the program uses them.
use fie_importer.Prelude.{
  ◌≡◌, refl, ◌≢◌, inl, inr, Bool, true, false, not, ◌&&◌, [], ◌∷◌, arith, ◌==◌, if◌then◌else◌,
  Bool-cases, length, is_empty, take, drop,
}
use fie_importer.Prelude.Bytes.{Bytes}
use fie_importer.Fies.Row.{mapped_prefix}

-- `netip.Addr`: 4 bytes, or 16 bytes with a zone.
pub data Addr : Type 0 where
  v4 : Bytes → Addr
  v6 : Bytes → Bytes → Addr

abbrev pub bytes_eq : Bytes → Bytes → Bool
bytes_eq [] [] = true
bytes_eq [] (c ∷ s) = false
bytes_eq (c ∷ s) [] = false
bytes_eq (c ∷ s) (d ∷ t) = c == d && bytes_eq s t

-- `Zone() != ""`
abbrev pub has_zone : Addr → Bool
has_zone (v4 b) = false
has_zone (v6 b zone) = not (is_empty zone)

abbrev pub is_mapped : Bytes → Bool
is_mapped b = bytes_eq (take 12 b) mapped_prefix

-- `Unmap()`: an IPv4-mapped IPv6 address becomes its IPv4 address.
unfoldable pub unmap : Addr → Addr
unmap (v4 b) = v4 b
unmap (v6 b zone) = if is_mapped b then v4 (drop 12 b) else v6 b zone

abbrev pub is_4 : Addr → Bool
is_4 (v4 b) = true
is_4 (v6 b zone) = false

abbrev pub as_slice : Addr → Bytes
as_slice (v4 b) = b
as_slice (v6 b zone) = b

-- What `netip.ParseAddr` returns: 4 or 16 bytes.
abbrev pub IsAddr : Addr → Type 0
IsAddr (v4 b) = length b ≡ 4
IsAddr (v6 b zone) = length b ≡ 16

pub bytes_eq_refl : (b : Bytes) → bytes_eq b b ≡ true
bytes_eq_refl [] = refl
bytes_eq_refl (c ∷ s) = ground (arith, bytes_eq_refl s)

pub bytes_eq→eq : (b d : Bytes) → bytes_eq b d ≡ true → b ≡ d
bytes_eq→eq [] [] h = refl
bytes_eq→eq [] (d ∷ t) h = cc
bytes_eq→eq (c ∷ s) [] h = cc
bytes_eq→eq (c ∷ s) (d ∷ t) h = ground (arith, bytes_eq→eq s t)

pub bytes_ne : (b d : Bytes) → b ≢ d → bytes_eq b d ≡ false
bytes_ne b d ne = elim (Bool-cases (bytes_eq b d)) [
  | inl e ↦ absurd (ne (bytes_eq→eq b d e))
  | inr e ↦ e
]

pub bytes_eq_comm : (b d : Bytes) → bytes_eq b d ≡ bytes_eq d b
bytes_eq_comm [] [] = refl
bytes_eq_comm [] (d ∷ t) = refl
bytes_eq_comm (c ∷ s) [] = refl
bytes_eq_comm (c ∷ s) (d ∷ t) = ground (arith, bytes_eq_comm s t)
