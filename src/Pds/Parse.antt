-- ===== src/Pds/Parse.antt =====
-- internal/pds/pds.go: `Row`, `line`, `halfWords` and `Parse`. `json.Unmarshal` into a `line` and
-- `netip.ParseAddr` are the arguments `unmarshal` and `parse_addr`, `none` for their errors.
pub mod Accepts
pub mod Fields
pub mod Rows
use fie_importer.Prelude.{
  ℕ, ◌%◌, ◌^◌, ◌≡◌, refl, Bool, true, false, ◌&&◌, Option, none, some, ◌==◌, if◌then◌else◌,
  is_empty, ℤ, pos, negsuc, pos_part,
}
use fie_importer.Prelude.Bytes.{Bytes}
use fie_importer.Fies.Row.{to_16}
use fie_importer.Net.{Addr, has_zone, unmap, is_4, as_slice}

abbrev pub icmp : ℕ
icmp = 1

abbrev pub udp : ℕ
udp = 17

abbrev pub icmpv6 : ℕ
icmpv6 = 58

pub record Row : Type 0 where
  pub pdid : ℕ
  pub agent_id : Bytes
  pub ip_version : ℕ
  pub protocol : ℕ
  pub destination : Bytes
  pub near_ttl : ℕ
  pub first_half_word : ℕ
  pub second_half_word : ℕ

pub record HalfWords : Type 0 where
  pub first : ℕ
  pub second : ℕ

pub record Ports : Type 0 where
  pub source_port : ℕ
  pub destination_port : ℕ

pub record NextHeader : Type 0 where
  pub icmp_header : Option HalfWords
  pub icmpv6_header : Option HalfWords
  pub udp_header : Option Ports

pub record Line : Type 0 where
  pub protocol : ℤ
  pub agent_id : Bytes
  pub destination_address : Bytes
  pub near_ttl : ℕ
  pub next_header : NextHeader

pub data ParseError : Type 0 where
  invalid_json empty_agent_id : ParseError
  bad_destination : Bytes → ParseError
  bad_protocol : ℤ → ParseError

pub data Result {ℓ} (A : Type ℓ) : Type ℓ where
  ok : A → Result A
  err : ParseError → Result A

-- `if err != nil { return Row{}, err }` before the next step.
infixl 5 ◌>>=◌
abbrev pub ◌>>=◌ {ℓ} : {A B : Type ℓ} → Result A → (A → Result B) → Result B
(err problem) >>= next = err problem
(ok value) >>= next = next value

-- A step that ends well began well.
pub ok_of_bind {ℓ} :
    {A B : Type ℓ} (first : Result A) (next : A → Result B) {last : B}
    → (first >>= next) ≡ ok last
    → (value : A) × (first ≡ ok value) × (next value ≡ ok last)
ok_of_bind (err problem) next h = absurd (cc)
ok_of_bind (ok value) next h = (value, refl, h)

abbrev pub int_eq : ℤ → ℕ → Bool
int_eq (pos n) m = n == m
int_eq (negsuc n) m = false

abbrev pub is_some {ℓ} : {A : Type ℓ} → Option A → Bool
is_some none = false
is_some (some a) = true

abbrev first_of_words : Option HalfWords → ℕ
first_of_words none = 0
first_of_words (some w) = w.first

abbrev ports_of : Option Ports → ℕ × ℕ
ports_of none = (0, 0)
ports_of (some p) = (p.source_port, p.destination_port)

-- The `switch` over protocol and next header: the two half-words of the row.
unfoldable pub half_words : Line → Result (ℕ × ℕ)
half_words l =
    let h = l.next_header in
    if int_eq l.protocol icmp && is_some h.icmp_header
    then ok (first_of_words h.icmp_header, 0)
    else if int_eq l.protocol icmpv6 && is_some h.icmpv6_header
    then ok (first_of_words h.icmpv6_header, 0)
    else if int_eq l.protocol udp && is_some h.udp_header
    then ok (ports_of h.udp_header)
    else err (bad_protocol l.protocol)

-- `uint8(l.Protocol)` is `% 2 ^ 8`.
abbrev pub row_of : ℕ → Bytes → Line → Addr → ℕ × ℕ → Row
row_of id agent l addr words = record {
  pdid = id;
  agent_id = agent;
  ip_version = if is_4 addr then 4 else 6;
  protocol = pos_part l.protocol % 2 ^ 8;
  destination = to_16 (as_slice addr);
  near_ttl = l.near_ttl;
  first_half_word = words.0;
  second_half_word = words.1;
}

module _ (unmarshal : Bytes → Option Line) (parse_addr : Bytes → Option Addr) where
  unfoldable pub read_line : Bytes → Result Line
  read_line bytes = elim (unmarshal bytes) [ none ↦ err invalid_json | some l ↦ ok l ]

  unfoldable pub read_destination : Bytes → Result Addr
  read_destination text = elim (parse_addr text) [
    | none ↦ err (bad_destination text)
    | some addr ↦ if has_zone addr then err (bad_destination text) else ok addr
  ]

  abbrev pub agent_of : Bytes → Result Bytes
  agent_of id = if is_empty id then err empty_agent_id else ok id

  unfoldable pub parse : Bytes → ℕ → Result Row
  parse bytes id = do
    l ← read_line bytes
    agent ← agent_of l.agent_id
    parsed ← read_destination l.destination_address
    let addr = unmap parsed
    words ← half_words l
    ok (row_of id agent l addr words)
