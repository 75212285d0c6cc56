-- ===== src/Proto/Server/Fixed/Gain.antt =====
-- The gain that an AUDG command carries: a fraction of 2 ^ 16, in the low half of a 32-bit number.
use slimstream.Base.{ℕ, ◌*◌, ◌/◌, ◌<◌, ◌≤◌, ◌≡◌, refl, ◌∙◌, ◌%◌, ◌^◌, arith, some}
use slimstream.Proto.Wire.{htons}
use slimstream.Proto.Server.Fixed.{make_audg, clamp_gain, scaled_gain}

htons-htons : (n : ℕ) → n < 2 ^ 16 → htons (htons n) ≡ n
unfolding htons
htons-htons n h = omega arith

scaled_gain-below : (g : ℕ) → g < 100 → scaled_gain g % 2 ^ 16 ≡ 65536 * g / 100
scaled_gain-below g h = ground arith

below : (g : ℕ) → g < 100 → htons (htons (scaled_gain g % 2 ^ 16)) ≡ 65536 * g / 100
below g h =
    htons-htons (scaled_gain g % 2 ^ 16) (omega (arith, scaled_gain-below g h))
    ∙ scaled_gain-below g h

clamp_gain-full : (g : ℕ) → 100 ≤ g → clamp_gain g ≡ 100
clamp_gain-full g h = ground arith

full : (g : ℕ) → 100 ≤ g → htons (scaled_gain g % 2 ^ 16) ≡ 0
unfolding htons
full g h = rw (clamp_gain-full g h)

-- For a gain below 100 percent, the low half of both channels is that share of 2 ^ 16, in network
-- byte order. For a gain of 100 percent or more both halves of both channels are 0.
pub make_audg-gain :
    (g : ℕ)
    → (g < 100
        → (htons (make_audg (some g)).gain_left2 ≡ 65536 * g / 100)
          × (htons (make_audg (some g)).gain_right2 ≡ 65536 * g / 100))
      × (100 ≤ g
          → ((make_audg (some g)).gain_left2 ≡ 0)
            × ((make_audg (some g)).gain_left1 ≡ 0)
            × ((make_audg (some g)).gain_right2 ≡ 0)
            × ((make_audg (some g)).gain_right1 ≡ 0))
unfolding make_audg
make_audg-gain g = (λ h. (below g h, below g h), λ h. (full g h, refl, full g h, refl))
