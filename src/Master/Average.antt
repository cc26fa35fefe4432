-- ===== src/Master/Average.antt =====
-- The averages that the master shows, against the sums it keeps.
use native.Mathlib.Nat.{div-lt_iff_lt-mul}
use interview.Base.{
  some, ℕ, ◌-◌, ◌*◌, ◌/◌, ◌%◌, ◌^◌, ◌≤◌, ◌<◌, ◌≡◌, ◌≢◌, refl, ◌↔◌, true, false, not, arith, ◌==◌,
  ◌&&◌, List, ◌∷◌, ◌++◌,
}
use interview.Base.Int.{ℤ, pos, negsuc, eqz, eqz→eq}
use interview.Protocol.{to_int8, byte_of, response_packet}
use interview.Master.{Master, master_calculate_averages, response_of}

-- `int8_t` and its byte
abbrev pub IsInt8 : ℤ → Type 0
IsInt8 (pos n) = n < 128
IsInt8 (negsuc n) = n < 128

to_int8-pos : (n : ℕ) → n < 128 → to_int8 n ≡ pos n
to_int8-pos n h = ground arith

to_int8-byte_of : (z : ℤ) → IsInt8 z → to_int8 (byte_of z) ≡ z
to_int8-byte_of (pos n) h = ground arith
to_int8-byte_of (negsuc n) h = ground arith

-- the mean of sums that stay in the range of their field
div_small : (s n b : ℕ) → 0 < n → s < b * n → s / n < b
div_small s n b positive h = (div-lt_iff_lt-mul positive).1 h

eqz_refl : (a : ℤ) → eqz a a ≡ true
eqz_refl a = ground arith

eq_refl : (a : ℕ) → (a == a) ≡ true
eq_refl a = ground arith

unchanged : (a b : ℤ) (x y : ℕ) → not (eqz a b && (x == y)) ≡ false → (b ≡ a) × (y ≡ x)
unchanged a b x y h = ground (arith, eqz→eq a b)

changed_iff : (a b : ℤ) (x y : ℕ) → (not (eqz a b && (x == y)) ≡ false) ↔ ((b ≡ a) × (y ≡ x))
changed_iff a b x y = (unchanged a b x y, λ h. rw (h.0, h.1) (rw (eqz_refl a, eq_refl x)))

module _ {K : Type 0} where
  -- For a sum of temperatures that is not negative, and where there are slaves and both means fit
  -- their fields, the averages are the means of the sums, rounded down, and no change is reported
  -- exactly if both averages are as they were.
  pub master_calculate_averages-mean :
      (m : Master K) (s : ℕ)
      → m.sum_temperature ≡ pos s
      → 0 < m.slaves.count
      → s < 128 * m.slaves.count
      → m.sum_illumination < 256 * m.slaves.count
      → let m' = (master_calculate_averages m).0 in
        (m'.avg_temperature ≡ pos (s / m.slaves.count))
        × (m'.avg_illumination ≡ m.sum_illumination / m.slaves.count)
        × (((master_calculate_averages m).1 ≡ false) ↔ (
            (m'.avg_temperature ≡ m.avg_temperature) × (m'.avg_illumination ≡ m.avg_illumination)))
  unfolding master_calculate_averages
  master_calculate_averages-mean m s h positive ts is =
      let some_slave : (m.slaves.count == 0) ≡ false = ground arith in
      let t : (master_calculate_averages m).0.avg_temperature ≡ pos (s / m.slaves.count) =
        rw (some_slave, h)
          (to_int8-pos (s / m.slaves.count) (div_small s m.slaves.count 128 positive ts)) in
      let i : (master_calculate_averages m).0.avg_illumination
          ≡ m.sum_illumination / m.slaves.count =
        rw some_slave
          (omega (arith, div_small m.sum_illumination m.slaves.count 256 positive is)) in
      (
        t,
        i,
        changed_iff m.avg_temperature (master_calculate_averages m).0.avg_temperature
            m.avg_illumination (master_calculate_averages m).0.avg_illumination,
      )

quotient : (a : ℕ) → 0 < a → a ≤ 128 → (2 ^ 64 - 1 - (3 * a - 1)) / 3 ≡ 6148914691236517205 - a
quotient a positive small = omega arith

shifted : (a : ℕ) → 0 < a → a ≤ 128 → to_int8 (6148914691236517205 - a) ≢ negsuc (a - 1)
shifted a positive small h = ground arith

-- Three slaves whose temperatures add up to -3a, for an a from 1 to 128: the average is not -a, as
-- the sum is divided as an unsigned number of 64 bits.
averages-negative :
    {K : Type 0} (m : Master K) (a : ℕ)
    → 0 < a
    → a ≤ 128
    → m.slaves.count ≡ 3
    → m.sum_temperature ≡ negsuc (3 * a - 1)
    → (master_calculate_averages m).0.avg_temperature ≢ negsuc (a - 1)
unfolding master_calculate_averages
averages-negative m a positive small three h =
    rw (three, h, quotient a positive small) (shifted a positive small)

-- The response of a slave with an illumination below 128, as the master reads it: the temperature
-- is the illumination, and the illumination the byte behind the packet.
response_of-response_packet :
    (temperature : ℤ) (illumination behind : ℕ) (rest : List ℕ)
    → illumination < 128
    → response_of (response_packet temperature illumination ++ behind ∷ rest)
      ≡ some (record { temperature = pos illumination; illumination = behind })
unfolding response_packet response_of
response_of-response_packet t i behind rest hi =
    let e : to_int8 (i % 256) ≡ pos i = ground arith in rw e refl
