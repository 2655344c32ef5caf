-- ===== src/Streams/Full/Times.antt =====
-- The times and the replies of a FIE, against what its row packs.
use native.Mathlib.Nat.{one-le-pow}
use fie_importer.Prelude.{
  ℕ, ◌+◌, ◌*◌, ◌/◌, ◌%◌, ◌^◌, ◌<◌, ◌≡◌, refl, ap, ◌∙◌, ◌≢◌, ◌⊎◌, inl, inr, Option, none, some, [],
  ◌∷◌, ◌==◌, ==_iff, arith, Bool-cases, ℤ, pos, ◌+ℤ◌, ◌-ℤ◌, +ℤ_parts, -ℤ_parts, eq_of_parts,
}
use fie_importer.Prelude.Bytes.{Bytes}
use fie_importer.Prelude.Time.{Time, seconds}
use fie_importer.Streams.Compressed.{CompressedFie}
use fie_importer.Streams.Full.{
  Directive, Info, FullFie, delta, decode_timestamp, capture_time_of, info,
}

-- The age of 6 bits behind i others, and the time of an age; 63 stands for no time.
abbrev pub IsAge : ℕ → ℕ → ℕ → Type 0
IsAge ages i age =
    (low : ℕ) × (high : ℕ) × (low < 2 ^ (6 * i))
    × (age < 64)
    × (ages ≡ low + 2 ^ (6 * i) * (age + 64 * high))

abbrev pub IsTimeOf : Time → ℕ → Time → Type 0
IsTimeOf capture age t = ((age ≡ 63) × (t ≡ pos 0)) ⊎ ((age ≢ 63) × (t +ℤ seconds age ≡ capture))

abbrev pub HasTime : CompressedFie → ℕ → Time → Type 0
HasTime row i t =
    (age : ℕ) × IsAge row.columns.time_deltas i age × IsTimeOf (capture_time_of row) age t

-- A reply: none without an address, else with the TTL, the address and the times of two ages
abbrev pub IsReply : CompressedFie → ℕ → Bytes → ℕ → ℕ → Option Info → Type 0
IsReply row ttl address i j none = address ≡ []
IsReply row ttl address i j (some info) =
    (address ≢ [])
    × (info.reply_address ≡ address)
    × (info.probe_ttl ≡ ttl)
    × HasTime row i info.sent_timestamp
    × HasTime row j info.received_timestamp

-- The near reply has the TTL of the directive, and the far one the next.
abbrev pub HasTimes : CompressedFie → Directive → FullFie → Type 0
HasTimes row pd fie =
    HasTime row 0 fie.production_timestamp
    × IsReply row pd.near_ttl row.columns.near_reply_address 1 2 fie.near_info
    × IsReply row ((pd.near_ttl + 1) % 2 ^ 8) row.columns.far_reply_address 3 4 fie.far_info

whole_split : (a p : ℕ) → 0 < p → a ≡ a % p + p * (a / p)
whole_split a p h = omega (arith, h)

age_split : (a p : ℕ) → 0 < p → a ≡ a % p + p * (a / p % 64 + 64 * (a / p / 64))
age_split a p h = whole_split a p h ∙ ap (λ x. a % p + p * x) (whole_split (a / p) 64 (omega arith))

IsAge-delta : (ages i : ℕ) → IsAge ages i (delta ages i)
unfolding delta
IsAge-delta ages i =
    let positive = one-le-pow (6 * i) 2 (omega arith) in
    (
      ages % 2 ^ (6 * i),
      ages / 2 ^ (6 * i) / 64,
      omega (arith, positive),
      omega arith,
      age_split ages (2 ^ (6 * i)) positive,
    )

minus_plus : (a b : ℤ) → (a -ℤ b) +ℤ b ≡ a
minus_plus a b = eq_of_parts _ _ (omega (arith, -ℤ_parts a b, +ℤ_parts (a -ℤ b) b))

IsTimeOf-decode_timestamp :
    (capture : Time) (age : ℕ) → IsTimeOf capture age (decode_timestamp capture age)
unfolding decode_timestamp
IsTimeOf-decode_timestamp capture age = elim (Bool-cases (age == 63)) [
  | inl e ↦ rw (decode_timestamp, e) (inl ((==_iff age 63).0 e, refl))
  | inr e ↦
      rw (decode_timestamp, e)
        (inr ((λ same. cc ((==_iff age 63).1 same, e)), minus_plus capture (seconds age)))
]

pub HasTime-delta :
    (row : CompressedFie) (i : ℕ)
    → HasTime row i (decode_timestamp (capture_time_of row) (delta row.columns.time_deltas i))
HasTime-delta row i =
    let age = delta row.columns.time_deltas i in
    (
      age,
      IsAge-delta row.columns.time_deltas i,
      IsTimeOf-decode_timestamp (capture_time_of row) age,
    )

pub IsReply-info :
    (row : CompressedFie) (ttl : ℕ) (address : Bytes) (i j : ℕ) (sent received : Time)
    → HasTime row i sent
    → HasTime row j received
    → IsReply row ttl address i j (info ttl address sent received)
IsReply-info row ttl [] i j sent received s r = refl
IsReply-info row ttl (c ∷ address) i j sent received s r = ((λ e. cc), refl, refl, s, r)
