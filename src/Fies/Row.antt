-- ===== src/Fies/Row.antt =====
-- internal/fies/row.go: `Raw2a`, `Row` and `Convert2a`, from a row of a capture file to a table row.
pub mod Times
pub mod Address
use Prim.Native.String.{String}
use fie_importer.Prelude.{
  ℕ, ◌+◌, not, ◌&&◌, Option, none, some, [], ◌∷◌, ◌++◌, ◌-ℤ◌, ◌+ℤ◌, length, ◌==◌, if◌then◌else◌,
  is_empty, replicate,
}
use fie_importer.Prelude.Time.{Time, seconds}
use fie_importer.Prelude.Bytes.{Bytes}

abbrev pub format_2a : String
format_2a = "2a"

pub record Row : Type 0 where
  pub source_format : String
  pub pdid : ℕ
  pub capture_time : Time
  pub fie_transit_s : Option ℕ
  pub near_reply_addr : Option Bytes
  pub far_reply_addr : Option Bytes
  pub near_probe_sent_time : Option Time
  pub near_reply_recv_time : Option Time
  pub far_probe_sent_time : Option Time
  pub far_reply_recv_time : Option Time

pub record Raw2a : Type 0 where
  pub pdid : ℕ
  pub capture_second : ℕ
  pub near_reply_addr : Bytes
  pub far_reply_addr : Bytes
  pub near_reply_age_s : Option ℕ
  pub far_reply_age_s : Option ℕ
  pub fie_transit_s : Option ℕ

-- `capture.Add(-time.Duration(int(*transit)+int(*age)) * time.Second)`, nil for a missing part.
unfoldable pub recv_time : Time → Option ℕ → Bytes → Option ℕ → Option Time
recv_time capture none addr age = none
recv_time capture (some transit) addr none = none
recv_time capture (some transit) addr (some age) =
    if is_empty addr then none else some (capture -ℤ seconds (transit + age))

-- The prefix of an IPv4-mapped address, as `To16` of a 4-byte address puts it.
abbrev pub mapped_prefix : Bytes
mapped_prefix = replicate 10 0 ++ 0xff ∷ 0xff ∷ []

-- `net.IP(b).To16()` of an address of 4 or 16 bytes.
unfoldable pub to_16 : Bytes → Bytes
to_16 b = if length b == 4 then mapped_prefix ++ b else b

unfoldable pub to_ipv6 : Bytes → Option Bytes
unfolding to_16
to_ipv6 b = if not (length b == 4) && not (length b == 16) then none else some (to_16 b)

unfoldable pub convert2a : Raw2a → Time → Row
convert2a raw interval_start =
    let capture = interval_start +ℤ seconds raw.capture_second in
    record {
      source_format = format_2a;
      pdid = raw.pdid;
      capture_time = capture;
      fie_transit_s = raw.fie_transit_s;
      near_reply_addr = to_ipv6 raw.near_reply_addr;
      far_reply_addr = to_ipv6 raw.far_reply_addr;
      near_probe_sent_time = none;
      near_reply_recv_time =
          recv_time capture raw.fie_transit_s raw.near_reply_addr raw.near_reply_age_s;
      far_probe_sent_time = none;
      far_reply_recv_time =
          recv_time capture raw.fie_transit_s raw.far_reply_addr raw.far_reply_age_s;
    }
