-- ===== src/Pds/Parse/Rows.antt =====
-- Which lines `Parse` accepts, and what the row has from them.
use fie_importer.Prelude.{
  ℕ, zero, ◌%◌, ◌^◌, ◌≡◌, refl, sym, ap, ◌∙◌, ◌≢◌, ◌↔◌, ◌⊎◌, inl, inr, true, false, Option, some,
  [], ◌∷◌, ◌++◌, arith, Bool-cases, length, take, drop, pos, pos_part, length-drop, if◌then◌else◌,
  suc,
}
use fie_importer.Prelude.Bytes.{Bytes}
use fie_importer.Net.{Addr, v4, v6, IsAddr, has_zone, is_mapped, unmap, is_4, as_slice, bytes_eq→eq}
use fie_importer.Fies.Row.{to_16, mapped_prefix}
use fie_importer.Pds.Parse.{Line, Row, ok, HalfWords, Ports, parse, row_of}
use fie_importer.Pds.Parse.Accepts.{Carries, by_icmp, by_icmpv6, by_udp, parse_lem}

-- The protocol of the line is 1, 58 or 17, with its next header, and the row has it and the two half-words: for
-- ICMP the first one of the header and 0, for UDP the source port and the destination port.
pub data Probes (l : Line) (row : Row) : Type 0 where
  icmp_probe :
      (h : HalfWords)
      → l.protocol ≡ pos 1
      → l.next_header.icmp_header ≡ some h
      → row.protocol ≡ 1
      → row.first_half_word ≡ h.first
      → row.second_half_word ≡ 0
      → Probes l row
  icmpv6_probe :
      (h : HalfWords)
      → l.protocol ≡ pos 58
      → l.next_header.icmpv6_header ≡ some h
      → row.protocol ≡ 58
      → row.first_half_word ≡ h.first
      → row.second_half_word ≡ 0
      → Probes l row
  udp_probe :
      (h : Ports)
      → l.protocol ≡ pos 17
      → l.next_header.udp_header ≡ some h
      → row.protocol ≡ 17
      → row.first_half_word ≡ h.source_port
      → row.second_half_word ≡ h.destination_port
      → Probes l row

-- The destination in 16 bytes: an IPv4 address behind ::ffff:0:0/96, and version 4 for exactly these
abbrev pub Targets : Addr → Row → Type 0
Targets (v4 b) row = (row.ip_version ≡ 4) × (row.destination ≡ mapped_prefix ++ b)
Targets (v6 b zone) row =
    (row.destination ≡ b)
    × ((row.ip_version ≡ 4) × (take 12 b ≡ mapped_prefix)
        ⊎ (row.ip_version ≡ 6) × (take 12 b ≢ mapped_prefix))

row_eq :
    (r s : Row)
    → r.pdid ≡ s.pdid
    → r.agent_id ≡ s.agent_id
    → r.ip_version ≡ s.ip_version
    → r.protocol ≡ s.protocol
    → r.destination ≡ s.destination
    → r.near_ttl ≡ s.near_ttl
    → r.first_half_word ≡ s.first_half_word
    → r.second_half_word ≡ s.second_half_word
    → r ≡ s
row_eq r s a b c d e f g h = cc

take_drop : (n : ℕ) (b : Bytes) → take n b ++ drop n b ≡ b
take_drop zero b = refl
take_drop (suc n) [] = refl
take_drop (suc n) (c ∷ b) = ap (λ x. c ∷ x) (take_drop n b)

rejoined : (b : Bytes) → take 12 b ≡ mapped_prefix → mapped_prefix ++ drop 12 b ≡ b
rejoined b e = ap (λ x. x ++ drop 12 b) (sym e) ∙ take_drop 12 b

to_16_short : (b : Bytes) → length b ≡ 4 → to_16 b ≡ mapped_prefix ++ b
unfolding to_16
to_16_short b h = rw h refl

to_16_long : (b : Bytes) → length b ≡ 16 → to_16 b ≡ b
unfolding to_16
to_16_long b h = rw h refl

length_rest : (b : Bytes) → length b ≡ 16 → length (drop 12 b) ≡ 4
length_rest b h = rw (length-drop 12 b) (omega (arith, h))

is_mapped_iff : (b : Bytes) → take 12 b ≡ mapped_prefix → is_mapped b ≡ true
is_mapped_iff b e = rw e refl

unmap-Targets :
    (addr : Addr) (row : Row)
    → IsAddr addr
    → row.ip_version ≡ (if is_4 (unmap addr) then 4 else 6)
    → row.destination ≡ to_16 (as_slice (unmap addr))
    → Targets addr row
unfolding unmap
unmap-Targets (v4 b) row size v d = (v, d ∙ to_16_short b size)
unmap-Targets (v6 b zone) row size v d = elim (Bool-cases (is_mapped b)) [
  | inl e ↦
      let prefix = bytes_eq→eq (take 12 b) mapped_prefix e in
      (
        rw e at d ∙ to_16_short (drop 12 b) (length_rest b size) ∙ rejoined b prefix,
        inl (rw e at v, prefix),
      )
  | inr e ↦ (rw e at d ∙ to_16_long b size, inr (rw e at v, λ same. cc (is_mapped_iff b same, e)))
]

Targets-unmap :
    (addr : Addr) (row : Row)
    → IsAddr addr
    → Targets addr row
    → (row.ip_version ≡ (if is_4 (unmap addr) then 4 else 6))
      × (row.destination ≡ to_16 (as_slice (unmap addr)))
unfolding unmap
Targets-unmap (v4 b) row size (v, d) = (v, d ∙ sym (to_16_short b size))
Targets-unmap (v6 b zone) row size (d, inl (v, prefix)) =
    let e = is_mapped_iff b prefix in
    rw e (v, d ∙ sym (rejoined b prefix) ∙ sym (to_16_short (drop 12 b) (length_rest b size)))
Targets-unmap (v6 b zone) row size (d, inr (v, other)) = elim (Bool-cases (is_mapped b)) [
  | inl e ↦ absurd (other (bytes_eq→eq (take 12 b) mapped_prefix e))
  | inr e ↦ rw e (v, d ∙ sym (to_16_long b size))
]

Carries-Probes :
    (l : Line) (row : Row) (w : ℕ × ℕ)
    → Carries l w
    → row.protocol ≡ pos_part l.protocol % 2 ^ 8
    → row.first_half_word ≡ w.0
    → row.second_half_word ≡ w.1
    → Probes l row
Carries-Probes l row w (by_icmp h p q e) x y z =
    icmp_probe h p q (x ∙ ap (λ i. pos_part i % 2 ^ 8) p) (y ∙ ap (λ v. v.0) e)
      (z ∙ ap (λ v. v.1) e)
Carries-Probes l row w (by_icmpv6 h p q e) x y z =
    icmpv6_probe h p q (x ∙ ap (λ i. pos_part i % 2 ^ 8) p) (y ∙ ap (λ v. v.0) e)
      (z ∙ ap (λ v. v.1) e)
Carries-Probes l row w (by_udp h p q e) x y z =
    udp_probe h p q (x ∙ ap (λ i. pos_part i % 2 ^ 8) p) (y ∙ ap (λ v. v.0) e) (z ∙ ap (λ v. v.1) e)

Probes-Carries :
    (l : Line) (row : Row)
    → Probes l row
    → Carries l (row.first_half_word, row.second_half_word)
      × (row.protocol ≡ pos_part l.protocol % 2 ^ 8)
Probes-Carries l row (icmp_probe h p q x y z) =
    (by_icmp h p q (rw (y, z) refl), x ∙ sym (ap (λ i. pos_part i % 2 ^ 8) p))
Probes-Carries l row (icmpv6_probe h p q x y z) =
    (by_icmpv6 h p q (rw (y, z) refl), x ∙ sym (ap (λ i. pos_part i % 2 ^ 8) p))
Probes-Carries l row (udp_probe h p q x y z) =
    (by_udp h p q (rw (y, z) refl), x ∙ sym (ap (λ i. pos_part i % 2 ^ 8) p))

module _ (unmarshal : Bytes → Option Line) (parse_addr : Bytes → Option Addr) where
  -- Valid JSON with an agent, a destination address without a zone and a supported protocol with its next
  -- header; and the row with these, under the ID
  pub record IsParsed (bytes : Bytes) (id : ℕ) (row : Row) : Type 0 where
    pub line : Line
    pub addr : Addr
    pub is_json : unmarshal bytes ≡ some line
    pub has_agent : line.agent_id ≢ []
    pub has_destination : parse_addr line.destination_address ≡ some addr
    pub no_zone : has_zone addr ≡ false
    pub same_id : row.pdid ≡ id
    pub same_agent : row.agent_id ≡ line.agent_id
    pub same_ttl : row.near_ttl ≡ line.near_ttl
    pub targets : Targets addr row
    pub probes : Probes line row

  module _ (sizes : (text : Bytes) (a : Addr) → parse_addr text ≡ some a → IsAddr a) where
    -- `Parse` makes a row of a line exactly when the line is valid JSON with an agent, a destination
    -- address without a zone and a supported protocol with its next header. The row has the ID that `Parse` was
    -- called with, the agent and the near TTL of the line, the protocol and the half-words of its next header, and
    -- the destination in 16 bytes, with version 4 exactly for an IPv4 or IPv4-mapped one. `netip.ParseAddr` is to
    -- return 4 or 16 bytes.
    pub parse_iff :
        (bytes : Bytes) (id : ℕ) (row : Row)
        → (parse unmarshal parse_addr bytes id ≡ ok row) ↔ IsParsed bytes id row
    parse_iff bytes id row = (
      λ h.
          let acc = (parse_lem unmarshal parse_addr bytes id row).0 h in
          let made = acc.makes in
          record {
            line = acc.line;
            addr = acc.addr;
            is_json = acc.is_json;
            has_agent = acc.has_agent;
            has_destination = acc.has_destination;
            no_zone = acc.no_zone;
            same_id = ap (λ r. r.pdid) made;
            same_agent = ap (λ r. r.agent_id) made;
            same_ttl = ap (λ r. r.near_ttl) made;
            targets =
                unmap-Targets acc.addr row
                  (sizes acc.line.destination_address acc.addr acc.has_destination)
                  (ap (λ r. r.ip_version) made) (ap (λ r. r.destination) made);
            probes =
                Carries-Probes acc.line row acc.words acc.carries (ap (λ r. r.protocol) made)
                  (ap (λ r. r.first_half_word) made) (ap (λ r. r.second_half_word) made);
          },
      λ p.
          let (version, destination) =
            Targets-unmap p.addr row (sizes p.line.destination_address p.addr p.has_destination)
              p.targets in
          let (carries, protocol) = Probes-Carries p.line row p.probes in
          (parse_lem unmarshal parse_addr bytes id row).1 (record {
            line = p.line;
            addr = p.addr;
            words = (row.first_half_word, row.second_half_word);
            is_json = p.is_json;
            has_agent = p.has_agent;
            has_destination = p.has_destination;
            no_zone = p.no_zone;
            carries = carries;
            makes =
                row_eq row
                  (row_of id p.line.agent_id p.line (unmap p.addr)
                    (row.first_half_word, row.second_half_word))
                  p.same_id p.same_agent version protocol destination p.same_ttl refl refl;
          }),
    )
