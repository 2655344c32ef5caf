-- ===== src/Streams/Lite.antt =====
-- deprecated/internal/streams/clickhouse_fie_ingesters.go: the rows of the two lite tables.
use fie_importer.Prelude.{
  ℕ, ◌+◌, ◌-◌, ◌%◌, ◌^◌, ◌<◌, ◌≡◌, refl, ap, Option, none, some, [], ◌∷◌, arith,
}
use fie_importer.Prelude.Bytes.{Bytes}
use fie_importer.Prelude.Time.{Time}
use fie_importer.Fies.Row.{to_ipv6}
use fie_importer.Streams.Compressed.{CompressedFie}
use fie_importer.Streams.Full.{Directive, Info, FullFie, info, capture_time_of, fie_of}

-- The values of `NewClickHouseLiteFIEIngester`, in their order
pub record LiteRow : Type 0 where
  pub probing_directive_id : ℕ
  pub sequence_number : ℕ
  pub destination_address : Bytes
  pub near_reply_address : Option Bytes
  pub far_reply_address : Option Bytes
  pub near_probe_ttl : Option ℕ
  pub capture_timestamp : Time

abbrev pub address_in : Option Info → Option Bytes
address_in none = none
address_in (some i) = some i.reply_address

-- `fie.FarInfo.ProbeTTL - 1` of a uint8 takes the place of the near one.
abbrev pub near_ttl_of : Option Info → Option Info → Option ℕ
near_ttl_of none none = none
near_ttl_of (some near) none = some near.probe_ttl
near_ttl_of near (some far) = some ((far.probe_ttl + 2 ^ 8 - 1) % 2 ^ 8)

unfoldable pub lite_row : FullFie → LiteRow
lite_row fie = record {
  probing_directive_id = fie.directive_id;
  sequence_number = fie.sequence_number;
  destination_address = fie.destination_address;
  near_reply_address = address_in fie.near_info;
  far_reply_address = address_in fie.far_info;
  near_probe_ttl = near_ttl_of fie.near_info fie.far_info;
  capture_timestamp = fie.capture_time;
}

-- The values of `NewClickHouseLiteFIEIngester2`
pub record LiteRow2 : Type 0 where
  pub sequence_number : ℕ
  pub probing_directive_id : ℕ
  pub near_reply_address : Option Bytes
  pub far_reply_address : Option Bytes
  pub capture_timestamp : Time

unfoldable pub lite_row2 : CompressedFie → LiteRow2
unfolding to_ipv6
lite_row2 fie = record {
  sequence_number = fie.sequence_number;
  probing_directive_id = fie.columns.probing_directive_id;
  near_reply_address = to_ipv6 fie.columns.near_reply_address;
  far_reply_address = to_ipv6 fie.columns.far_reply_address;
  capture_timestamp = capture_time_of fie;
}

-- The address of a column, if it has one
abbrev pub present : Bytes → Option Bytes
present [] = none
present (c ∷ s) = some (c ∷ s)

abbrev pub if_any : Bytes → Bytes → ℕ → Option ℕ
if_any [] [] ttl = none
if_any [] (c ∷ far) ttl = some ttl
if_any (c ∷ near) far ttl = some ttl

addresses_in :
    (ttl : ℕ) (address : Bytes) (sent received : Time)
    → address_in (info ttl address sent received) ≡ present address
addresses_in ttl [] sent received = refl
addresses_in ttl (c ∷ address) sent received = refl

ttls_in :
    (ttl : ℕ) (near far : Bytes) (s r s' r' : Time)
    → ttl < 2 ^ 8
    → near_ttl_of (info ttl near s r) (info ((ttl + 1) % 2 ^ 8) far s' r') ≡ if_any near far ttl
ttls_in ttl [] [] s r s' r' h = refl
ttls_in ttl (c ∷ near) [] s r s' r' h = refl
ttls_in ttl [] (d ∷ far) s r s' r' h = ap (λ n. some n) (omega arith)
ttls_in ttl (c ∷ near) (d ∷ far) s r s' r' h = ap (λ n. some n) (omega arith)

-- The lite row of an FIE of the full stream has the addresses that its capture row has, and the near TTL of
-- its directive exactly if one of them is there: taking 1 from the far TTL gives it back on uint8.
pub lite_row-fie_of :
    (row : CompressedFie) (n : ℕ) (pd : Directive) (source : Bytes)
    → pd.near_ttl < 2 ^ 8
    → ((lite_row (fie_of row n pd source)).near_reply_address
        ≡ present row.columns.near_reply_address)
      × ((lite_row (fie_of row n pd source)).far_reply_address
          ≡ present row.columns.far_reply_address)
      × ((lite_row (fie_of row n pd source)).near_probe_ttl
          ≡ if_any row.columns.near_reply_address row.columns.far_reply_address pd.near_ttl)
unfolding lite_row fie_of
lite_row-fie_of row n pd source h = (
  addresses_in pd.near_ttl row.columns.near_reply_address _ _,
  addresses_in ((pd.near_ttl + 1) % 2 ^ 8) row.columns.far_reply_address _ _,
  ttls_in pd.near_ttl row.columns.near_reply_address row.columns.far_reply_address _ _ _ _ h,
)
