-- ===== src/Crc32c/Masked.antt =====
-- Unmask takes the mask off again, and each uint32_t is the mask of one.
use tleveldb.Base.{ℕ, ◌+◌, ◌-◌, ◌*◌, ◌/◌, ◌%◌, ◌^◌, ◌<◌, ◌≡◌, bit_or, ap, ◌∙◌, arith}
use tleveldb.Base.Bits.{bit_or_high}
use tleveldb.Crc32c.{mask_delta, mask, unmask}

-- A rotation to the right by 15 bits, and one by 17, as arithmetic.
rotate_15 :
    (x : ℕ)
    → x < 2 ^ 32
    → bit_or (x / 2 ^ 15) (x * 2 ^ 17 % 2 ^ 32) ≡ x / 2 ^ 15 + x % 2 ^ 15 * 2 ^ 17
rotate_15 x h =
    ap (λ (t : ℕ). bit_or (x / 2 ^ 15) t) high
    ∙ bit_or_high 17 (x / 2 ^ 15) (x % 2 ^ 15) (omega arith)
  where
    high : x * 2 ^ 17 % 2 ^ 32 ≡ x % 2 ^ 15 * 2 ^ 17
    high = omega arith

rotate_17 :
    (x : ℕ)
    → x < 2 ^ 32
    → bit_or (x / 2 ^ 17) (x * 2 ^ 15 % 2 ^ 32) ≡ x / 2 ^ 17 + x % 2 ^ 17 * 2 ^ 15
rotate_17 x h =
    ap (λ (t : ℕ). bit_or (x / 2 ^ 17) t) high
    ∙ bit_or_high 15 (x / 2 ^ 17) (x % 2 ^ 17) (omega arith)
  where
    high : x * 2 ^ 15 % 2 ^ 32 ≡ x % 2 ^ 17 * 2 ^ 15
    high = omega arith

less_delta : (r : ℕ) → r < 2 ^ 32 → ((r + mask_delta) % 2 ^ 32 + 2 ^ 32 - mask_delta) % 2 ^ 32 ≡ r
less_delta r h = omega arith

plus_delta : (r : ℕ) → r < 2 ^ 32 → ((r + 2 ^ 32 - mask_delta) % 2 ^ 32 + mask_delta) % 2 ^ 32 ≡ r
plus_delta r h = omega arith

-- Unmask gives back the checksum that Mask masked.
pub unmask-mask : (crc : ℕ) → crc < 2 ^ 32 → unmask (mask crc) ≡ crc
unfolding mask unmask
unmask-mask crc h =
    let rot = crc / 2 ^ 15 + crc % 2 ^ 15 * 2 ^ 17 in
    rw (rotate_15 crc h, less_delta rot (omega arith), rotate_17 rot (omega arith)) (omega arith)

-- Mask gives back the stored number that Unmask unmasked.
pub mask-unmask : (masked : ℕ) → masked < 2 ^ 32 → mask (unmask masked) ≡ masked
unfolding mask unmask
mask-unmask masked h =
    let rot = (masked + 2 ^ 32 - mask_delta) % 2 ^ 32 in
    let crc = rot / 2 ^ 17 + rot % 2 ^ 17 * 2 ^ 15 in
    rw (rotate_17 rot (omega arith), rotate_15 crc (omega arith))
      (ap (λ (t : ℕ). (t + mask_delta) % 2 ^ 32) {x = crc / 2 ^ 15 + crc % 2 ^ 15 * 2 ^ 17}
          {y = rot} (omega arith)
        ∙ plus_delta masked h)
