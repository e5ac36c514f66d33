-- ===== src/Kernel/Btree/Search.antt =====
-- The binary search over the keys of a node.
use aetherfs.Base.{
  ℕ, zero, suc, ◌+◌, ◌/◌, ◌≤◌, ◌<◌, ◌≡◌, sym, subst, lt→ltb, ge→ltb, List, arith, length, get_or,
}
use aetherfs.Kernel.Btree.{Key, no_key, find_loop, find_slot}
use native.Mathlib.Decide.{dec_lt}

module _ (field : Key → ℕ) where
  abbrev pub at : List Key → ℕ → ℕ
  at keys i = field (get_or keys i no_key)

  -- The keys do not fall from left to right.
  pub record IsSorted (keys : List Key) : Type 0 where
    pub step : (i j : ℕ) → i ≤ j → j < length keys → at keys i ≤ at keys j

  -- The slot parts the keys below the target from the others.
  pub record IsSlot (keys : List Key) (target slot : ℕ) : Type 0 where
    pub bound : slot ≤ length keys
    pub below : (i : ℕ) → i < slot → at keys i < target
    pub above : (i : ℕ) → slot ≤ i → i < length keys → target ≤ at keys i

  find_loop-IsSlot :
      (keys : List Key) (target n low high : ℕ)
      → IsSorted keys
      → low ≤ high
      → high ≤ length keys
      → high ≤ low + n
      → ((i : ℕ) → i < low → at keys i < target)
      → ((i : ℕ) → high ≤ i → i < length keys → target ≤ at keys i)
      → IsSlot keys target (find_loop field keys target n low high)
  unfolding find_loop
  find_loop-IsSlot keys target zero low high s lh hl fuel b a = record {
    bound = omega arith;
    below = b;
    above = λ i p q. a i (omega arith) q;
  }
  find_loop-IsSlot keys target (suc n) low high s lh hl fuel b a =
      let mid = (low + high) / 2 in
      elim (dec_lt low high) [
        | no p ↦
            subst (IsSlot keys target) (sym (rw (ge→ltb low high (omega arith))))
              (record { bound = omega arith; below = b; above = λ i q r. a i (omega arith) r })
        | yes p ↦ elim (dec_lt (at keys mid) target) [
          | yes q ↦
              subst (IsSlot keys target)
                (sym (rw (lt→ltb low high p, lt→ltb (at keys mid) target q)))
                (find_loop-IsSlot keys target n (mid + 1) high s (omega arith) hl (omega arith)
                  (λ i r. omega (arith, s.step i mid (omega arith) (omega arith))) a)
          | no q ↦
              subst (IsSlot keys target)
                (sym (rw (lt→ltb low high p, ge→ltb (at keys mid) target (omega arith))))
                (find_loop-IsSlot keys target n low mid s (omega arith) (omega arith) (omega arith)
                  b (λ i r t. omega (arith, s.step mid i r t)))
        ]
      ]

  -- In sorted keys the search ends within as many rounds as there are keys, at the slot that parts
  -- the keys below the target from the others.
  pub find_slot-IsSlot :
      (keys : List Key) (target : ℕ)
      → IsSorted keys
      → IsSlot keys target (find_slot field keys target)
  unfolding find_slot
  find_slot-IsSlot keys target s =
      find_loop-IsSlot keys target (length keys) 0 (length keys) s (omega arith) (omega arith)
        (omega arith) (λ i p. absurd (omega arith)) (λ i p q. absurd (omega arith))

  -- No other slot does.
  pub IsSlot-unique :
      (keys : List Key) (target s t : ℕ) → IsSlot keys target s → IsSlot keys target t → s ≡ t
  IsSlot-unique keys target s t x y = elim (dec_lt s t) [
    | yes p ↦ omega (arith, x.above s (omega arith) (omega (arith, y.bound)), y.below s p)
    | no p ↦ elim (dec_lt t s) [
      | yes q ↦ omega (arith, y.above t (omega arith) (omega (arith, x.bound)), x.below t q)
      | no q ↦ omega arith
    ]
  ]
