-- ===== src/Protocol/Reliability/Bitfield.antt =====
-- The bits of the receive window: what the two updates of the bitfield do to it.
use rift_net.Base.{
  ℕ, ◌-◌, ◌*◌, ◌%◌, ◌^◌, ◌<◌, ◌≡◌, ◌↔◌, ◌⊎◌, ap, bit_or, ltb, ◌==◌, if◌then◌else◌, arith,
}
use rift_net.Base.Bits.{
  bit, bit_le_one, bit-or, bit-shift_left_low, bit-shift_left_high, bit-mod, bit-pow,
}
use rift_net.Protocol.Reliability.{sub16}

-- The bits of the window after the highest number moved up by `d`, and after bit `d` was set.
pub bit-advance :
    (x d k : ℕ)
    → 0 < d
    → k < 32
    → bit (bit_or (x * 2 ^ d % 2 ^ 32) 1) k
      ≡ (if k == 0 then 1 else (if ltb k d then 0 else bit x (k - d)))
bit-advance x d k pos h =
    let moved = bit-or (x * 2 ^ d % 2 ^ 32) 1 k in
    let cut = bit-mod 32 (x * 2 ^ d) k h in
    ground (
      arith,
      moved,
      cut,
      bit-pow 0 k,
      bit-shift_left_low x d k,
      bit-shift_left_high x d k,
      bit_le_one x (k - d),
    )

pub bit-mark :
    (x d k : ℕ)
    → d < 32
    → k < 32
    → bit (bit_or x (1 * 2 ^ d % 2 ^ 32)) k ≡ (if d == k then 1 else bit x k)
bit-mark x d k hd hk =
    let one : 1 * 2 ^ d ≡ 2 ^ d = omega arith in
    let cut = bit-mod 32 (1 * 2 ^ d) k hk in
    ground (
      arith,
      bit-or x (1 * 2 ^ d % 2 ^ 32) k,
      cut,
      ap (λ (y : ℕ). bit y k) one,
      bit-pow d k,
      bit_le_one x k,
    )

-- The window around `highest` with bits `x` holds the sequence number `q`.
abbrev pub InWindow : ℕ → ℕ → ℕ → Type 0
InWindow highest x q = (sub16 highest q < 32) × (bit x (sub16 highest q) ≡ 1)

module _ (highest seq x q : ℕ) (h : highest < 65536) (r : seq < 65536) (hq : q < 65536) where
  abbrev pub ahead : ℕ
  ahead = sub16 seq highest

  abbrev pub behind : ℕ
  behind = sub16 highest seq

  age_ahead :
      0 < ahead
      → ahead < 32
      → sub16 highest q < 32
      → sub16 seq q < 32
      → sub16 seq q - ahead ≡ sub16 highest q
  age_ahead pos few a b = omega arith

  pub InWindow-advance :
      0 < ahead
      → ahead < 32
      → InWindow seq (bit_or (x * 2 ^ ahead % 2 ^ 32) 1) q
        ↔ ((q ≡ seq) ⊎ (InWindow highest x q × (sub16 seq q < 32)))
  InWindow-advance pos few = (grows, shrinks)
    where
      grows :
          InWindow seq (bit_or (x * 2 ^ ahead % 2 ^ 32) 1) q
          → (q ≡ seq) ⊎ (InWindow highest x q × (sub16 seq q < 32))
      grows (near, set) = ground (
        arith,
        bit-advance x ahead (sub16 seq q) pos near,
        age_ahead pos few,
        ap (bit x) {x = sub16 seq q - ahead} {y = sub16 highest q},
      )

      shrinks :
          (q ≡ seq) ⊎ (InWindow highest x q × (sub16 seq q < 32))
          → InWindow seq (bit_or (x * 2 ^ ahead % 2 ^ 32) 1) q
      shrinks e = ground (arith, bit-advance x ahead (sub16 seq q) pos, age_ahead pos few)

  pub InWindow-mark :
      0 < behind
      → behind < 32
      → InWindow highest (bit_or x (1 * 2 ^ behind % 2 ^ 32)) q
        ↔ ((q ≡ seq) ⊎ (InWindow highest x q × (sub16 highest q < 32)))
  InWindow-mark pos few = (grows, shrinks)
    where
      grows :
          InWindow highest (bit_or x (1 * 2 ^ behind % 2 ^ 32)) q
          → (q ≡ seq) ⊎ (InWindow highest x q × (sub16 highest q < 32))
      grows (near, set) = ground (arith, bit-mark x behind (sub16 highest q) few near)

      shrinks :
          (q ≡ seq) ⊎ (InWindow highest x q × (sub16 highest q < 32))
          → InWindow highest (bit_or x (1 * 2 ^ behind % 2 ^ 32)) q
      shrinks e = ground (arith, bit-mark x behind (sub16 highest q) few)
