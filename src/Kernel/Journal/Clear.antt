-- ===== src/Kernel/Journal/Clear.antt =====
-- The loops over the slots in use, as functions of the log.
use aetherfs.Base.{
  ℕ, zero, suc, ◌+◌, ◌-◌, ◌≤◌, ◌≡◌, ◌∙◌, refl, ap, Bool, not, List, [], ◌∷◌, arith, get_or, take,
  map, length, Bool-cases, inl, inr,
}
use aetherfs.Kernel.Journal.{Intent, no_intent, sweep, shift, move_down, clear_from, is_done}
use aetherfs.Kernel.Journal.Spec.{Entry, entry_of, select, restate, finished}

abbrev pub entries : ℕ → List Intent → List Entry
entries n xs = map entry_of (take n xs)

-- A sweep restates the chosen entries.
pub sweep-restate :
    (f : Intent → Bool) (p : Entry → Bool) (state n : ℕ) (xs : List Intent)
    → ((i : Intent) → f i ≡ p (entry_of i))
    → entries n (sweep f state n xs).0 ≡ restate p state (entries n xs)
unfolding sweep restate
sweep-restate f p state zero xs same = refl
sweep-restate f p state (suc n) [] same = refl
sweep-restate f p state (suc n) (x ∷ xs) same =
    let rest = sweep-restate f p state n xs same in
    elim (Bool-cases (p (entry_of x))) [
      | inl chosen ↦ rw (same x, chosen, ap (λ t. record (entry_of x) { state = state } ∷ t) rest)
      | inr passed ↦ rw (same x, passed, ap (λ t. entry_of x ∷ t) rest)
    ]

-- A sweep counts the chosen entries.
pub sweep-count :
    (f : Intent → Bool) (p : Entry → Bool) (state n : ℕ) (xs : List Intent)
    → ((i : Intent) → f i ≡ p (entry_of i))
    → (sweep f state n xs).1 ≡ length (select p (entries n xs))
unfolding sweep select
sweep-count f p state zero xs same = refl
sweep-count f p state (suc n) [] same = refl
sweep-count f p state (suc n) (x ∷ xs) same =
    let rest = sweep-count f p state n xs same in
    elim (Bool-cases (p (entry_of x))) [
      | inl chosen ↦
          let more : (sweep f state n xs).1 + 1 ≡ suc (length (select p (entries n xs))) =
            omega (arith, rest) in
          rw (same x, chosen, more)
      | inr passed ↦ rw (same x, passed, rest)
    ]

pub length-sweep :
    (f : Intent → Bool) (state n : ℕ) (xs : List Intent) → length (sweep f state n xs).0 ≡ length xs
unfolding sweep
length-sweep f state zero xs = refl
length-sweep f state (suc n) [] = refl
length-sweep f state (suc n) (x ∷ xs) = ground (arith, length-sweep f state n xs)

length-shift : (n : ℕ) (xs : List Intent) → length (shift n xs) ≡ length xs
unfolding shift
length-shift zero xs = refl
length-shift (suc n) [] = refl
length-shift (suc n) (x ∷ []) = refl
length-shift (suc n) (x ∷ y ∷ xs) = ap suc (length-shift n (y ∷ xs))

take-shift :
    (n : ℕ) (x : Intent) (xs : List Intent) → n ≤ length xs → take n (shift n (x ∷ xs)) ≡ take n xs
unfolding shift
take-shift zero x xs h = refl
take-shift (suc n) x [] h = absurd (omega arith)
take-shift (suc n) x (y ∷ xs) h = ap (λ t. y ∷ t) (take-shift n y xs (omega arith))

clear_from-suc :
    (txn n i : ℕ) (x : Intent) (xs : List Intent)
    → clear_from txn n (suc i) (x ∷ xs) ≡ (x ∷ (clear_from txn n i xs).0, (clear_from txn n i xs).1)
unfolding clear_from move_down
clear_from-suc txn zero i x xs = refl
clear_from-suc txn (suc n) i x xs =
    let below = clear_from-suc txn n i x (move_down i n xs) in
    let beyond = clear_from-suc txn n (suc i) x xs in
    elim (Bool-cases (is_done txn (get_or xs i no_intent))) [
      | inl gone ↦ rw (gone, below)
      | inr kept ↦ rw (kept, beyond)
    ]

length-move_down : (i n : ℕ) (xs : List Intent) → length (move_down i n xs) ≡ length xs
unfolding move_down
length-move_down zero n xs = length-shift n xs
length-move_down (suc i) n [] = refl
length-move_down (suc i) n (x ∷ xs) = ap suc (length-move_down i n xs)

pub length-clear_from :
    (txn n i : ℕ) (xs : List Intent) → length (clear_from txn n i xs).0 ≡ length xs
unfolding clear_from
length-clear_from txn zero i xs = refl
length-clear_from txn (suc n) i xs = elim (Bool-cases (is_done txn (get_or xs i no_intent))) [
  | inl gone ↦ rw (gone, length-clear_from txn n i (move_down i n xs) ∙ length-move_down i n xs)
  | inr kept ↦ rw (kept, length-clear_from txn n (suc i) xs)
]

-- What clearing the first `n` slots leaves.
pub record IsCleared (txn n : ℕ) (xs : List Intent) : Type 0 where
  pub few : (clear_from txn n 0 xs).1 ≤ n
  pub left :
      entries (n - (clear_from txn n 0 xs).1) (clear_from txn n 0 xs).0
      ≡ select (λ e. not (finished txn e)) (entries n xs)
  pub count : (clear_from txn n 0 xs).1 ≡ length (select (finished txn) (entries n xs))

pub clear_from-IsCleared : (txn n : ℕ) (xs : List Intent) → n ≤ length xs → IsCleared txn n xs
unfolding clear_from select move_down
clear_from-IsCleared txn zero xs h = record { few = omega arith; left = refl; count = refl }
clear_from-IsCleared txn (suc n) [] h = absurd (omega arith)
clear_from-IsCleared txn (suc n) (x ∷ xs) h = elim (Bool-cases (is_done txn x)) [
  | inl gone ↦
      let moved = shift n (x ∷ xs) in
      let size : length moved ≡ suc (length xs) = length-shift n (x ∷ xs) in
      let rest = clear_from-IsCleared txn n moved (omega arith) in
      let same : take n moved ≡ take n xs = take-shift n x xs (omega arith) in
      let one : suc n - ((clear_from txn n 0 moved).1 + 1) ≡ n - (clear_from txn n 0 moved).1 =
        omega arith in
      let counted = rest.count ∙ ap (λ t. length (select (finished txn) (map entry_of t))) same in
      let more : (clear_from txn n 0 moved).1 + 1
          ≡ suc (length (select (finished txn) (entries n xs))) =
        omega (arith, counted) in
      let bound : (clear_from txn n 0 moved).1 + 1 ≤ suc n = omega (arith, rest.few) in
      record {
        few = rw gone bound;
        left = rw (gone, one, rest.left, same);
        count = rw (gone, more);
      }
  | inr kept ↦
      let rest = clear_from-IsCleared txn n xs (omega arith) in
      let step = clear_from-suc txn n 0 x xs in
      let one : suc n - (clear_from txn n 0 xs).1 ≡ suc (n - (clear_from txn n 0 xs).1) =
        omega (arith, rest.few) in
      let bound : (clear_from txn n 0 xs).1 ≤ suc n = omega (arith, rest.few) in
      record {
        few = rw (kept, step) bound;
        left = rw (kept, step, one, ap (λ t. entry_of x ∷ t) rest.left);
        count = rw (kept, step, rest.count);
      }
]
