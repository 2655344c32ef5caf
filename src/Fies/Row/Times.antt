-- ===== src/Fies/Row/Times.antt =====
-- The times of a converted row.
use fie_importer.Prelude.{
  ℕ, ◌+◌, ◌^◌, ◌<ℤ◌, ◌<◌, ap, ◌≡◌, ◌≢◌, ◌↔◌, refl, Option, none, some, [], ◌∷◌, ◌+ℤ◌, ◌-ℤ◌, ◌≤ℤ◌,
  arith, int_laws, pos_part, neg_part,
}
use fie_importer.Prelude.Time.{Time, seconds}
use fie_importer.Prelude.Bytes.{Bytes}
use fie_importer.Fies.Row.{Raw2a, recv_time, convert2a}

-- What the received time of a reply is to be: capture = received + transit + age.
abbrev pub IsRecvTime : Time → Option ℕ → Bytes → Option ℕ → Time → Type 0
IsRecvTime capture transit addr age t =
    (x : ℕ) × (y : ℕ) × (transit ≡ some x)
    × (age ≡ some y)
    × (addr ≢ [])
    × (t +ℤ seconds x +ℤ seconds y ≡ capture)

recv_time_sound :
    (capture : Time) (transit : Option ℕ) (addr : Bytes) (age : Option ℕ) (t : Time)
    → recv_time capture transit addr age ≡ some t
    → IsRecvTime capture transit addr age t
unfolding recv_time
recv_time_sound capture none addr age t h = cc
recv_time_sound capture (some x) addr none t h = cc
recv_time_sound capture (some x) [] (some y) t h = cc
recv_time_sound capture (some x) (b ∷ addr) (some y) t h =
    let e : capture -ℤ seconds (x + y) ≡ t = ground arith in
    (x, y, refl, refl, (λ q. cc), rw (← e) (omega int_laws))

recv_time_complete :
    (capture : Time) (transit : Option ℕ) (addr : Bytes) (age : Option ℕ) (t : Time)
    → IsRecvTime capture transit addr age t
    → recv_time capture transit addr age ≡ some t
unfolding recv_time
recv_time_complete capture transit [] age t (x, y, ex, ey, nonempty, e) = absurd (nonempty refl)
recv_time_complete capture transit (b ∷ addr) age t (x, y, ex, ey, nonempty, e) =
    let d : capture -ℤ seconds (x + y) ≡ t = omega (int_laws, ap pos_part e, ap neg_part e) in
    rw (ex, ey) (ground (arith, d))

module _ (raw : Raw2a) (start : Time) where
  -- A converted row has a near received time t exactly when transit and near age are there and the
  -- near address is not empty, and then t + transit + age is the capture time.
  pub near_reply_recv_time_iff :
      (t : Time)
      → ((convert2a raw start).near_reply_recv_time ≡ some t)
        ↔ IsRecvTime
            (convert2a raw start).capture_time
            raw.fie_transit_s
            raw.near_reply_addr
            raw.near_reply_age_s
            t
  unfolding convert2a
  near_reply_recv_time_iff t = (recv_time_sound _ _ _ _ t, recv_time_complete _ _ _ _ t)

  -- A converted row has a far received time t exactly when transit and far age are there and the far
  -- address is not empty, and then t + transit + age is the capture time.
  pub far_reply_recv_time_iff :
      (t : Time)
      → ((convert2a raw start).far_reply_recv_time ≡ some t)
        ↔ IsRecvTime
            (convert2a raw start).capture_time
            raw.fie_transit_s
            raw.far_reply_addr
            raw.far_reply_age_s
            t
  unfolding convert2a
  far_reply_recv_time_iff t = (recv_time_sound _ _ _ _ t, recv_time_complete _ _ _ _ t)

-- A raw row whose numbers fit their columns: uint16 seconds, uint8 ages and transit.
pub record IsInRange (raw : Raw2a) : Type 0 where
  pub capture_second : raw.capture_second < 2 ^ 16
  pub fie_transit_s : (x : ℕ) → raw.fie_transit_s ≡ some x → x < 2 ^ 8
  pub near_reply_age_s : (x : ℕ) → raw.near_reply_age_s ≡ some x → x < 2 ^ 8
  pub far_reply_age_s : (x : ℕ) → raw.far_reply_age_s ≡ some x → x < 2 ^ 8

-- A time that lies at most 510 seconds before another.
abbrev pub WithinAges : Time → Option Time → Type 0
WithinAges capture none = Unit {0}
WithinAges capture (some t) = (t ≤ℤ capture) × (capture ≤ℤ t +ℤ seconds 510)

recv_time-WithinAges :
    (capture : Time) (transit : Option ℕ) (addr : Bytes) (age : Option ℕ)
    → ((x : ℕ) → transit ≡ some x → x < 2 ^ 8)
    → ((x : ℕ) → age ≡ some x → x < 2 ^ 8)
    → WithinAges capture (recv_time capture transit addr age)
unfolding recv_time
recv_time-WithinAges capture none addr age ht ha = tt
recv_time-WithinAges capture (some x) addr none ht ha = tt
recv_time-WithinAges capture (some x) [] (some y) ht ha = tt
recv_time-WithinAges capture (some x) (b ∷ addr) (some y) ht ha =
    let hx = ht x refl in let hy = ha y refl in (omega int_laws, omega int_laws)

-- The capture time of a converted row lies in the 65,536 seconds from the start of its file, and its
-- received times lie between 510 seconds before the capture time and the capture time, for a raw row
-- whose numbers fit their columns.
pub convert2a_bounds :
    (raw : Raw2a) (start : Time)
    → IsInRange raw
    → (start ≤ℤ (convert2a raw start).capture_time)
      × ((convert2a raw start).capture_time <ℤ start +ℤ seconds (2 ^ 16))
      × WithinAges (convert2a raw start).capture_time (convert2a raw start).near_reply_recv_time
      × WithinAges (convert2a raw start).capture_time (convert2a raw start).far_reply_recv_time
unfolding convert2a
convert2a_bounds raw start h =
    let hc = h.capture_second in
    (
      omega int_laws,
      omega int_laws,
      recv_time-WithinAges _ _ _ _ h.fie_transit_s h.near_reply_age_s,
      recv_time-WithinAges _ _ _ _ h.fie_transit_s h.far_reply_age_s,
    )
