-- ===== src/Streams/Full/Deltas.antt =====
-- The ages that `time_deltas` packs.
use fie_importer.Prelude.{ℕ, ◌+◌, ◌*◌, ◌%◌, ◌^◌, ◌<◌, ◌≡◌, refl, arith}
use fie_importer.Prelude.Bytes.{Bytes}
use fie_importer.Streams.Compressed.{CompressedFie}
use fie_importer.Streams.Full.{Directive, info, capture_time_of, delta, decode_timestamp, fie_of}

-- Five ages of 6 bits each in a uint32
abbrev pub packed : ℕ → ℕ → ℕ → ℕ → ℕ → ℕ
packed production near_sent near_recv far_sent far_recv =
    production + 64 * near_sent + 4096 * near_recv + 262144 * far_sent + 16777216 * far_recv

module _ (production near_sent near_recv far_sent far_recv : ℕ) (p : production < 64)
    (ns : near_sent < 64) (nr : near_recv < 64) (fs : far_sent < 64) (fr : far_recv < 64) where
  abbrev all_packed : ℕ
  all_packed = packed production near_sent near_recv far_sent far_recv

  delta-packed :
      (delta all_packed 0 ≡ production)
      × (delta all_packed 1 ≡ near_sent)
      × (delta all_packed 2 ≡ near_recv)
      × (delta all_packed 3 ≡ far_sent)
      × (delta all_packed 4 ≡ far_recv)
  unfolding delta
  delta-packed = (omega arith, omega arith, omega arith, omega arith, omega arith)

  -- The FIE of a row has the times of the five ages that its `time_deltas` packs, each the capture time less
  -- its age in seconds, or the zero time for the age 63; the far one has the next TTL.
  pub fie_of-packed :
      (row : CompressedFie) (n : ℕ) (pd : Directive) (source : Bytes)
      → row.columns.time_deltas ≡ packed production near_sent near_recv far_sent far_recv
      → ((fie_of row n pd source).production_timestamp
          ≡ decode_timestamp (capture_time_of row) production)
        × ((fie_of row n pd source).near_info
            ≡ info pd.near_ttl row.columns.near_reply_address
                (decode_timestamp (capture_time_of row) near_sent)
                (decode_timestamp (capture_time_of row) near_recv))
        × ((fie_of row n pd source).far_info
            ≡ info
                ((pd.near_ttl + 1) % 2 ^ 8)
                row.columns.far_reply_address
                (decode_timestamp (capture_time_of row) far_sent)
                (decode_timestamp (capture_time_of row) far_recv))
  unfolding fie_of
  fie_of-packed row n pd source e =
      let (d0, d1, d2, d3, d4) = delta-packed in rw (e, d0, d1, d2, d3, d4) (refl, refl, refl)
