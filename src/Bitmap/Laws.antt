-- ===== src/Bitmap/Laws.antt =====
-- What the bitmap operations do to the bits and to their number.
use aetherfs.Base.{
  ℕ, zero, suc, ◌+◌, ◌*◌, ◌/◌, ◌%◌, ◌^◌, ◌<◌, ◌≤◌, ◌≡◌, ◌≢◌, refl, sym, ◌∙◌, ap, ◌&&◌, ◌||◌, not,
  ◌==◌, arith, if◌then◌else◌, List, [], ◌∷◌, length, get_or, set, div_mod_eq, eq→==, ne→==, subst,
  length-set,
}
use aetherfs.Format.Crc.{AreBytes}
use aetherfs.Format.Structs.Bitmap.{BitmapBlock}
use aetherfs.Bitmap.{
  byte_test, byte_set, byte_clear, bit_mask, popcount, popcounts, bitmap_test, bitmap_set,
  bitmap_clear, bitmap_count_set,
}
use aetherfs.Bitmap.Bytes.{byte_test-byte_set, byte_test-byte_clear, popcount-byte_set, bytes_stay}
use native.Mathlib.Decide.{ℕ_discrete}

-- The bitmap is made of bytes, and it has this many bits.
pub record IsBitmap (bitmap : BitmapBlock) (bits : ℕ) : Type 0 where
  pub bytes : AreBytes bitmap.bb_bits
  pub size : bits ≡ 8 * length bitmap.bb_bits

get_or-set_self : (xs : List ℕ) (i v : ℕ) → i < length xs → get_or (set xs i v) i 0 ≡ v
get_or-set_self [] i v h = elim h [ ]
get_or-set_self (x ∷ xs) zero v h = refl
get_or-set_self (x ∷ xs) (suc i) v h = get_or-set_self xs i v (omega arith)

get_or-set_ne : (xs : List ℕ) (i j v : ℕ) → i ≢ j → get_or (set xs i v) j 0 ≡ get_or xs j 0
get_or-set_ne [] i j v h = refl
get_or-set_ne (x ∷ xs) zero zero v h = absurd (h refl)
get_or-set_ne (x ∷ xs) zero (suc j) v h = refl
get_or-set_ne (x ∷ xs) (suc i) zero v h = refl
get_or-set_ne (x ∷ xs) (suc i) (suc j) v h = get_or-set_ne xs i j v (λ e. h (ap suc e))

byte-lt : (xs : List ℕ) (i : ℕ) → AreBytes xs → get_or xs i 0 < 256
byte-lt [] i h = omega arith
byte-lt (x ∷ xs) zero h = h.0
byte-lt (x ∷ xs) (suc i) h = byte-lt xs i h.1

AreBytes-set : (xs : List ℕ) (i v : ℕ) → AreBytes xs → v < 256 → AreBytes (set xs i v)
AreBytes-set [] i v h k = h
AreBytes-set (x ∷ xs) zero v h k = (k, h.1)
AreBytes-set (x ∷ xs) (suc i) v h k = (h.0, AreBytes-set xs i v h.1 k)

-- The number of a bit is that of its byte and its place there.
split_eq : (i j : ℕ) → (i == j) ≡ (i / 8 == j / 8 && i % 8 == j % 8)
split_eq i j = elim (ℕ_discrete i j) [
  | yes e ↦ ground (arith, ap (λ t. t / 8) e, ap (λ t. t % 8) e)
  | no ne ↦ ground (arith, div_mod_eq i 8, div_mod_eq j 8)
]

set_at :
    (xs : List ℕ) (q r t u : ℕ)
    → AreBytes xs
    → q < length xs
    → r < 8
    → u < 8
    → byte_test (get_or (set xs q (byte_set (get_or xs q 0) (2 ^ r))) t 0) (2 ^ u)
      ≡ ((q == t && r == u) || byte_test (get_or xs t 0) (2 ^ u))
set_at xs q r t u h lt hr hu = elim (ℕ_discrete q t) [
  | yes e ↦
      subst
        (λ t.
          byte_test (get_or (set xs q (byte_set (get_or xs q 0) (2 ^ r))) t 0) (2 ^ u)
          ≡ ((q == t && r == u) || byte_test (get_or xs t 0) (2 ^ u)))
        e
        (rw (
          get_or-set_self xs q (byte_set (get_or xs q 0) (2 ^ r)) lt,
          eq→== q q refl,
          byte_test-byte_set (get_or xs q 0) r u (byte-lt xs q h) hr hu,
        ))
  | no ne ↦ rw (get_or-set_ne xs q t (byte_set (get_or xs q 0) (2 ^ r)) ne, ne→== q t ne)
]

clear_at :
    (xs : List ℕ) (q r t u : ℕ)
    → AreBytes xs
    → q < length xs
    → r < 8
    → u < 8
    → byte_test (get_or (set xs q (byte_clear (get_or xs q 0) (2 ^ r))) t 0) (2 ^ u)
      ≡ (not (q == t && r == u) && byte_test (get_or xs t 0) (2 ^ u))
clear_at xs q r t u h lt hr hu = elim (ℕ_discrete q t) [
  | yes e ↦
      subst
        (λ t.
          byte_test (get_or (set xs q (byte_clear (get_or xs q 0) (2 ^ r))) t 0) (2 ^ u)
          ≡ (not (q == t && r == u) && byte_test (get_or xs t 0) (2 ^ u)))
        e
        (rw (
          get_or-set_self xs q (byte_clear (get_or xs q 0) (2 ^ r)) lt,
          eq→== q q refl,
          byte_test-byte_clear (get_or xs q 0) r u (byte-lt xs q h) hr hu,
        ))
  | no ne ↦ rw (get_or-set_ne xs q t (byte_clear (get_or xs q 0) (2 ^ r)) ne, ne→== q t ne)
]

-- In a bitmap, setting a bit sets that bit and changes no other.
pub bitmap_test-bitmap_set :
    (bitmap : BitmapBlock) (bits i j : ℕ)
    → IsBitmap bitmap bits
    → i < bits
    → bitmap_test (bitmap_set bitmap i) j ≡ ((i == j) || bitmap_test bitmap j)
unfolding bitmap_test bitmap_set
bitmap_test-bitmap_set bitmap bits i j wf hi =
    set_at bitmap.bb_bits (i / 8) (i % 8) (j / 8) (j % 8) wf.bytes (omega (arith, wf.size))
      (omega arith) (omega arith)
    ∙ ap (λ t. t || bitmap_test bitmap j) (sym (split_eq i j))

-- In a bitmap, clearing a bit clears that bit and changes no other.
pub bitmap_test-bitmap_clear :
    (bitmap : BitmapBlock) (bits i j : ℕ)
    → IsBitmap bitmap bits
    → i < bits
    → bitmap_test (bitmap_clear bitmap i) j ≡ (not (i == j) && bitmap_test bitmap j)
unfolding bitmap_test bitmap_clear
bitmap_test-bitmap_clear bitmap bits i j wf hi =
    clear_at bitmap.bb_bits (i / 8) (i % 8) (j / 8) (j % 8) wf.bytes (omega (arith, wf.size))
      (omega arith) (omega arith)
    ∙ ap (λ t. not t && bitmap_test bitmap j) (sym (split_eq i j))

-- Both operations keep a bitmap a bitmap, of as many bits.
pub bitmap_set-IsBitmap :
    (bitmap : BitmapBlock) (bits i : ℕ)
    → IsBitmap bitmap bits
    → IsBitmap (bitmap_set bitmap i) bits × IsBitmap (bitmap_clear bitmap i) bits
unfolding bitmap_set bitmap_clear
bitmap_set-IsBitmap bitmap bits i wf =
    let (s, c, _) =
      bytes_stay (get_or bitmap.bb_bits (i / 8) 0) (i % 8) (byte-lt bitmap.bb_bits (i / 8) wf.bytes)
        (omega arith) in
    (
      record {
        bytes = AreBytes-set bitmap.bb_bits (i / 8) _ wf.bytes s;
        size = omega (
          arith,
          wf.size,
          length-set bitmap.bb_bits (i / 8)
              (byte_set (get_or bitmap.bb_bits (i / 8) 0) (bit_mask i)),
        );
      },
      record {
        bytes = AreBytes-set bitmap.bb_bits (i / 8) _ wf.bytes c;
        size = omega (
          arith,
          wf.size,
          length-set bitmap.bb_bits (i / 8)
              (byte_clear (get_or bitmap.bb_bits (i / 8) 0) (bit_mask i)),
        );
      },
    )

popcounts-set :
    (xs : List ℕ) (q v : ℕ)
    → q < length xs
    → popcounts (set xs q v) + popcount 8 (get_or xs q 0) ≡ popcounts xs + popcount 8 v
unfolding popcounts
popcounts-set [] q v h = elim h [ ]
popcounts-set (x ∷ xs) zero v h = omega arith
popcounts-set (x ∷ xs) (suc q) v h = omega (arith, popcounts-set xs q v (omega arith))

popcounts-le : (xs : List ℕ) → AreBytes xs → popcounts xs ≤ 8 * length xs
unfolding popcounts
popcounts-le [] h = omega arith
popcounts-le (x ∷ xs) h =
    let (_, _, p) = bytes_stay x 0 h.0 (omega arith) in omega (arith, popcounts-le xs h.1, p)

-- Setting a bit of a bitmap of fewer than 2 ^ 32 bits adds one to the number of bits that are set, if
-- the bit was clear, and nothing otherwise.
pub bitmap_count_set-bitmap_set :
    (bitmap : BitmapBlock) (bits i : ℕ)
    → IsBitmap bitmap bits
    → bits < 2 ^ 32
    → i < bits
    → bitmap_count_set (bitmap_set bitmap i)
      ≡ (if bitmap_test bitmap i then bitmap_count_set bitmap else bitmap_count_set bitmap + 1)
unfolding bitmap_count_set bitmap_set bitmap_test
bitmap_count_set-bitmap_set bitmap bits i wf small hi =
    let (next, _) = bitmap_set-IsBitmap bitmap bits i wf in
    let a = popcounts-le bitmap.bb_bits wf.bytes in
    let b = popcounts-le (bitmap_set bitmap i).bb_bits next.bytes in
    let byte = get_or bitmap.bb_bits (i / 8) 0 in
    let c =
      popcounts-set bitmap.bb_bits (i / 8) (byte_set byte (bit_mask i)) (omega (arith, wf.size)) in
    let d =
      popcount-byte_set byte (i % 8) (byte-lt bitmap.bb_bits (i / 8) wf.bytes) (omega arith) in
    ground (arith, wf.size, next.size)
