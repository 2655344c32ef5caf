-- ===== src/Pds/Tests.antt =====
-- internal/pds at concrete lines, and the theorems at inputs that meet their hypotheses.
use fie_importer.Prelude.{
  ℕ, ◌≡◌, refl, ◌↔◌, Bool, true, false, Option, none, some, [], ◌∷◌, if◌then◌else◌, pos,
}
use fie_importer.Prelude.Bytes.{Bytes, codes}
use fie_importer.Net.{Addr, v4, IsAddr, bytes_eq, unmap}
use fie_importer.Fies.Row.{to_16}
use fie_importer.Pds.Parse.{Line, Row, ok, parse, read_line, read_destination, half_words}
use fie_importer.Pds.Parse.Rows.{IsParsed, parse_iff}
use fie_importer.Pds.Reader.{Reader, end_of_file, read_all, trim_space, next, take_line}
use fie_importer.Pds.Reader.Ids.{ParsesTo, texts_of, read_all_iff}

-- The decoders at two lines.
abbrev pub udp_line : Line
udp_line = record {
  protocol = pos 17;
  agent_id = codes "a1";
  destination_address = codes "10.0.0.1";
  near_ttl = 5;
  next_header = record {
    icmp_header = none;
    icmpv6_header = none;
    udp_header = some (record { source_port = 24000; destination_port = 33434 });
  };
}

abbrev pub unmarshal_test : Bytes → Option Line
unmarshal_test t = if bytes_eq t (codes "udp") then some udp_line else none

abbrev pub ten : Bytes
ten = 10 ∷ 0 ∷ 0 ∷ 1 ∷ []

abbrev pub parse_addr_test : Bytes → Option Addr
parse_addr_test t = if bytes_eq t (codes "10.0.0.1") then some (v4 ten) else none

abbrev pub udp_row : ℕ → Row
udp_row id = record {
  pdid = id;
  agent_id = codes "a1";
  ip_version = 4;
  protocol = 17;
  destination = to_16 ten;
  near_ttl = 5;
  first_half_word = 24000;
  second_half_word = 33434;
}

parse_runs : parse unmarshal_test parse_addr_test (codes "udp") 8 ≡ ok (udp_row 8)
unfolding parse read_line read_destination half_words unmap
parse_runs = refl

sizes_of : (found : Bool) (a : Addr) → (if found then some (v4 ten) else none) ≡ some a → IsAddr a
sizes_of true a h = let e : v4 ten ≡ a = cc in rw (← e)
sizes_of false a h = cc

addr_sizes : (t : Bytes) (a : Addr) → parse_addr_test t ≡ some a → IsAddr a
addr_sizes t a h = sizes_of (bytes_eq t (codes "10.0.0.1")) a h

parse_iff_example :
    (parse unmarshal_test parse_addr_test (codes "udp") 8 ≡ ok (udp_row 8))
    ↔ IsParsed unmarshal_test parse_addr_test (codes "udp") 8 (udp_row 8)
parse_iff_example = parse_iff unmarshal_test parse_addr_test addr_sizes (codes "udp") 8 (udp_row 8)

abbrev pub two_lines : Reader
two_lines = record {
  lines = codes " udp " ∷ codes "  " ∷ codes "udp" ∷ [];
  failure = false;
  next_id = 8;
  line = 0;
}

pub read_all_runs :
    read_all unmarshal_test parse_addr_test 4 two_lines ≡ (udp_row 8 ∷ udp_row 9 ∷ [], end_of_file)
unfolding read_all next take_line trim_space parse read_line read_destination half_words unmap
read_all_runs = refl

read_all_iff_example :
    (read_all unmarshal_test parse_addr_test 4 two_lines
      ≡ (udp_row 8 ∷ udp_row 9 ∷ [], end_of_file))
    ↔ (ParsesTo unmarshal_test parse_addr_test 8
          (texts_of two_lines.lines)
          (udp_row 8 ∷ udp_row 9 ∷ [])
        × (two_lines.failure ≡ false))
read_all_iff_example =
    read_all_iff unmarshal_test parse_addr_test two_lines (udp_row 8 ∷ udp_row 9 ∷ [])
