-- ===== src/Format/Codec.antt =====
-- The packed structures of aetherfs_format.h as bytes: `aetherfs_cpu_to_le*` and `memcpy` from and
-- to a block. A structure is the list of its fields' values beside the list of their widths.
use aetherfs.Base.{
  ℕ, zero, suc, ◌+◌, ◌*◌, ◌/◌, ◌%◌, ◌^◌, ◌<◌, ◌≡◌, refl, ap, List, [], ◌∷◌, ◌++◌, arith, length,
  length-append, take, drop, All,
}
use mathlib.Core.List.{append_assoc}

-- The `n` bytes of a word, the lowest first.
unfoldable pub le_bytes : ℕ → ℕ → List ℕ
le_bytes zero v = []
le_bytes (suc n) v = v % 256 ∷ le_bytes n (v / 256)

unfoldable pub of_le_bytes : List ℕ → ℕ
of_le_bytes [] = 0
of_le_bytes (x ∷ xs) = x + 256 * of_le_bytes xs

unfoldable pub encode : List ℕ → List ℕ → List ℕ
encode [] vs = []
encode (w ∷ ws) [] = le_bytes w 0 ++ encode ws []
encode (w ∷ ws) (v ∷ vs) = le_bytes w v ++ encode ws vs

unfoldable pub decode : List ℕ → List ℕ → List ℕ
decode [] bs = []
decode (w ∷ ws) bs = of_le_bytes (take w bs) ∷ decode ws (drop w bs)

-- Each value fits its field.
abbrev pub Fits : List ℕ → List ℕ → Type 0
Fits [] [] = Unit {0}
Fits [] (v ∷ vs) = ⊥
Fits (w ∷ ws) [] = ⊥
Fits (w ∷ ws) (v ∷ vs) = (v < 256 ^ w) × Fits ws vs

unfoldable pub sizes : List ℕ → ℕ
sizes [] = 0
sizes (w ∷ ws) = w + sizes ws

of_le_bytes-le_bytes : (n v : ℕ) → v < 256 ^ n → of_le_bytes (le_bytes n v) ≡ v
unfolding le_bytes of_le_bytes
of_le_bytes-le_bytes zero v h = omega arith
of_le_bytes-le_bytes (suc n) v h = omega (arith, of_le_bytes-le_bytes n (v / 256) (omega arith))

take-le_bytes : (n v : ℕ) (rest : List ℕ) → take n (le_bytes n v ++ rest) ≡ le_bytes n v
unfolding le_bytes
take-le_bytes zero v rest = refl
take-le_bytes (suc n) v rest = ap (λ t. v % 256 ∷ t) (take-le_bytes n (v / 256) rest)

drop-le_bytes : (n v : ℕ) (rest : List ℕ) → drop n (le_bytes n v ++ rest) ≡ rest
unfolding le_bytes
drop-le_bytes zero v rest = refl
drop-le_bytes (suc n) v rest = drop-le_bytes n (v / 256) rest

-- Reading back a structure that was copied into a block gives the structure.
pub decode-encode : (ws vs rest : List ℕ) → Fits ws vs → decode ws (encode ws vs ++ rest) ≡ vs
unfolding decode encode
decode-encode [] [] rest h = refl
decode-encode [] (v ∷ vs) rest h = absurd h
decode-encode (w ∷ ws) [] rest h = absurd h
decode-encode (w ∷ ws) (v ∷ vs) rest h = rw (
  append_assoc,
  take-le_bytes w v,
  drop-le_bytes w v,
  of_le_bytes-le_bytes w v h.0,
  decode-encode ws vs rest h.1,
)

length-le_bytes : (n v : ℕ) → length (le_bytes n v) ≡ n
unfolding le_bytes
length-le_bytes zero v = refl
length-le_bytes (suc n) v = ap suc (length-le_bytes n (v / 256))

pub length-encode : (ws vs : List ℕ) → length (encode ws vs) ≡ sizes ws
unfolding encode sizes
length-encode [] vs = refl
length-encode (w ∷ ws) [] =
    omega
      (arith, length-append (le_bytes w 0) (encode ws []), length-le_bytes w 0, length-encode ws [])
length-encode (w ∷ ws) (v ∷ vs) =
    omega
      (arith, length-append (le_bytes w v) (encode ws vs), length-le_bytes w v, length-encode ws vs)

pub drop-append : (n : ℕ) (xs ys : List ℕ) → length xs ≡ n → drop n (xs ++ ys) ≡ ys
drop-append zero [] ys h = refl
drop-append zero (x ∷ xs) ys h = absurd (omega arith)
drop-append (suc n) [] ys h = absurd (omega arith)
drop-append (suc n) (x ∷ xs) ys h = drop-append n xs ys (omega arith)

-- An array of structures of one layout.
unfoldable pub encode_all : List ℕ → List (List ℕ) → List ℕ
encode_all ws [] = []
encode_all ws (vs ∷ vss) = encode ws vs ++ encode_all ws vss

unfoldable pub decode_all : List ℕ → ℕ → List ℕ → List (List ℕ)
decode_all ws zero bs = []
decode_all ws (suc n) bs = decode ws bs ∷ decode_all ws n (drop (sizes ws) bs)

pub decode_all-encode_all :
    (ws : List ℕ) (n : ℕ) (vss : List (List ℕ)) (rest : List ℕ)
    → length vss ≡ n
    → All (Fits ws) vss
    → decode_all ws n (encode_all ws vss ++ rest) ≡ vss
unfolding encode_all decode_all
decode_all-encode_all ws zero [] rest e h = refl
decode_all-encode_all ws zero (vs ∷ vss) rest e h = absurd (omega arith)
decode_all-encode_all ws (suc n) [] rest e h = absurd (omega arith)
decode_all-encode_all ws (suc n) (vs ∷ vss) rest e h = rw (
  append_assoc,
  decode-encode ws vs (encode_all ws vss ++ rest) h.0,
  drop-append (sizes ws) (encode ws vs) (encode_all ws vss ++ rest) (length-encode ws vs),
  decode_all-encode_all ws n vss rest (omega arith) h.1,
)

pub length-encode_all :
    (ws : List ℕ) (vss : List (List ℕ)) → length (encode_all ws vss) ≡ length vss * sizes ws
unfolding encode_all
length-encode_all ws [] = omega arith
length-encode_all ws (vs ∷ vss) = omega (
  arith,
  length-append (encode ws vs) (encode_all ws vss),
  length-encode ws vs,
  length-encode_all ws vss,
)
