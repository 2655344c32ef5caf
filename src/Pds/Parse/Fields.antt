-- ===== src/Pds/Parse/Fields.antt =====
-- The fields of a parsed row.
use fie_importer.Prelude.{
  ℕ, ◌%◌, ◌^◌, ◌≡◌, refl, ◌≢◌, ◌⊎◌, inl, inr, true, false, Option, some, [], ◌++◌, arith,
  if◌then◌else◌, Bool-cases, length, drop, length-append, length-drop, pos_part,
}
use fie_importer.Prelude.Bytes.{Bytes}
use fie_importer.Net.{Addr, IsAddr, v4, v6, is_mapped, unmap, as_slice, is_4}
use fie_importer.Fies.Row.{to_16, mapped_prefix}
use fie_importer.Pds.Parse.Accepts.{parse_lem, half_words_complete}
use fie_importer.Pds.Parse.{Line, Row, ok, icmp, icmpv6, udp, half_words, parse}

-- A destination of 16 bytes whose version tells whether it is IPv4-mapped.
pub record IsDestination (version : ℕ) (b : Bytes) : Type 0 where
  pub length_16 : length b ≡ 16
  pub versions : (version ≡ 4) × (is_mapped b ≡ true) ⊎ (version ≡ 6) × (is_mapped b ≡ false)

is_mapped-prefix : (b : Bytes) → is_mapped (mapped_prefix ++ b) ≡ true
is_mapped-prefix b = refl

mapped-IsDestination : (b : Bytes) → length b ≡ 4 → IsDestination 4 (to_16 b)
unfolding to_16
mapped-IsDestination b h = record {
  length_16 = rw h (rw length-append (omega (arith, h)));
  versions = inl (refl, rw h (is_mapped-prefix b));
}

unmap-IsDestination :
    (a : Addr)
    → IsAddr a
    → IsDestination (if is_4 (unmap a) then 4 else 6) (to_16 (as_slice (unmap a)))
unfolding unmap to_16
unmap-IsDestination (v4 b) h = mapped-IsDestination b h
unmap-IsDestination (v6 b zone) h = elim (Bool-cases (is_mapped b)) [
  | inl e ↦ rw e (mapped-IsDestination (drop 12 b) (rw (length-drop 12 b) (omega (arith, h))))
  | inr e ↦ rw (e, h) (record { length_16 = h; versions = inr (refl, e) })
]

-- The protocols that the orchestrator accepts; only UDP has a second half-word.
pub record IsProbe (protocol second_half_word : ℕ) : Type 0 where
  pub protocols : (protocol ≡ icmp) ⊎ (protocol ≡ icmpv6) ⊎ (protocol ≡ udp)
  pub second_half : (protocol ≡ udp) ⊎ (second_half_word ≡ 0)

half_words-IsProbe :
    (l : Line) (w : ℕ × ℕ) → half_words l ≡ ok w → IsProbe (pos_part l.protocol % 2 ^ 8) w.1
unfolding half_words
half_words-IsProbe l w h = ground arith

-- A row that the PD table takes as the orchestrator would have it.
pub record IsDirective (id : ℕ) (row : Row) : Type 0 where
  pub same_id : row.pdid ≡ id
  pub has_agent : row.agent_id ≢ []
  pub destination : IsDestination row.ip_version row.destination
  pub probe : IsProbe row.protocol row.second_half_word

-- Every row that `Parse` returns has the ID that it was given, an agent, a destination of 16 bytes
-- that is IPv4-mapped exactly when the version is 4 and otherwise of version 6, one of the protocols
-- 1, 17 and 58, and a second half-word of zero unless it is UDP. `netip.ParseAddr` is to return 4 or
-- 16 bytes.
pub parse-IsDirective :
    (unmarshal : Bytes → Option Line) (parse_addr : Bytes → Option Addr)
    → ((text : Bytes) (a : Addr) → parse_addr text ≡ some a → IsAddr a)
    → (bytes : Bytes) (id : ℕ) (row : Row) → parse unmarshal parse_addr bytes id ≡ ok row
    → IsDirective id row
parse-IsDirective unmarshal parse_addr sizes bytes id row h =
    let acc = (parse_lem unmarshal parse_addr bytes id row).0 h in
    rw acc.makes (record {
      same_id = refl;
      has_agent = acc.has_agent;
      destination =
          unmap-IsDestination acc.addr
            (sizes acc.line.destination_address acc.addr acc.has_destination);
      probe =
          half_words-IsProbe acc.line acc.words
            (half_words_complete acc.line acc.words acc.carries);
    })
