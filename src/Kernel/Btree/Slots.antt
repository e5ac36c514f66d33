-- ===== src/Kernel/Btree/Slots.antt =====
-- Where the search ends in keys that one more key was inserted into.
use aetherfs.Base.{
  ℕ, suc, ◌+◌, ◌-◌, ◌≤◌, ◌<◌, ◌≡◌, ◌⊎◌, ◌∙◌, ap, List, arith, length, get_or, inl, inr,
}
use aetherfs.Kernel.Btree.{Key, no_key, insert_at, offset_of_key}
use aetherfs.Kernel.Btree.Search.{IsSorted, IsSlot}
use aetherfs.Kernel.Btree.Arrays.{
  length-insert_at, get-insert_at_below, get-insert_at_here, get-insert_at_above,
}
use native.Mathlib.Decide.{dec_lt, ℕ_discrete}

abbrev pub offset_at : List Key → ℕ → ℕ
offset_at keys i = (get_or keys i no_key).k_offset

-- Keys around a slot, after an insertion there.
module _ (keys : List Key) (key : Key) (s : ℕ)
    (slot : IsSlot offset_of_key keys key.k_offset s) where
  at_below : (i : ℕ) → i < s → offset_at (insert_at keys s key) i ≡ offset_at keys i
  at_below i lt = ap offset_of_key (get-insert_at_below keys s i key slot.bound lt)

  at_here : offset_at (insert_at keys s key) s ≡ key.k_offset
  at_here = ap offset_of_key (get-insert_at_here keys s key slot.bound)

  at_above : (i : ℕ) → s ≤ i → offset_at (insert_at keys s key) (suc i) ≡ offset_at keys i
  at_above i le = ap offset_of_key (get-insert_at_above keys s i key slot.bound le)

  -- A place of the new keys is before the slot, the slot, or one past an old place.
  place :
      (i : ℕ)
      → ((i < s) × (offset_at (insert_at keys s key) i ≡ offset_at keys i))
        ⊎ (((i ≡ s) × (offset_at (insert_at keys s key) i ≡ key.k_offset))
            ⊎ ((j : ℕ) × (i ≡ suc j)
                × (s ≤ j)
                × (offset_at (insert_at keys s key) i ≡ offset_at keys j)))
  place i = elim (dec_lt i s) [
    | yes lt ↦ inl (lt, at_below i lt)
    | no ge ↦ elim (ℕ_discrete i s) [
      | yes e ↦ inr (inl (e, ap (offset_at (insert_at keys s key)) e ∙ at_here))
      | no ne ↦
          let e : i ≡ suc (i - 1) = omega arith in
          let le : s ≤ i - 1 = omega arith in
          inr (inr (i - 1, e, le, ap (offset_at (insert_at keys s key)) e ∙ at_above (i - 1) le))
    ]
  ]

  grown : length (insert_at keys s key) ≡ length keys + 1
  grown = length-insert_at keys s key

  pub insert-IsSorted : IsSorted offset_of_key keys → IsSorted offset_of_key (insert_at keys s key)
  insert-IsSorted sorted = record {
    step = λ i j le lt. elim (place i) [
      | inl (a, e) ↦ elim (place j) [
        | inl (b, f) ↦ omega (arith, sorted.step i j le (omega (arith, slot.bound)), e, f)
        | inr (inl (b, f)) ↦ omega (arith, slot.below i a, e, f)
        | inr (inr (j', b, c, f)) ↦
            omega (arith, slot.below i a, slot.above j' c (omega (arith, grown)), e, f)
      ]
      | inr (inl (a, e)) ↦ elim (place j) [
        | inl (b, f) ↦ absurd (omega arith)
        | inr (inl (b, f)) ↦ omega (arith, e, f)
        | inr (inr (j', b, c, f)) ↦ omega (arith, slot.above j' c (omega (arith, grown)), e, f)
      ]
      | inr (inr (i', a, c, e)) ↦ elim (place j) [
        | inl (b, f) ↦ absurd (omega arith)
        | inr (inl (b, f)) ↦ absurd (omega arith)
        | inr (inr (j', b, d, f)) ↦
            omega (arith, sorted.step i' j' (omega arith) (omega (arith, grown)), e, f)
      ]
    ];
  }

  pub same-IsSlot :
      (t target : ℕ)
      → target ≤ key.k_offset
      → IsSlot offset_of_key keys target t
      → t ≤ s
      → IsSlot offset_of_key (insert_at keys s key) target t
  same-IsSlot t target le x ts = record {
    bound = omega (arith, grown, x.bound);
    below = λ i lt. omega (arith, x.below i lt, at_below i (omega arith));
    above = λ i ge lt. elim (place i) [
      | inl (b, f) ↦ omega (arith, x.above i ge (omega (arith, slot.bound)), f)
      | inr (inl (b, f)) ↦ omega (arith, f)
      | inr (inr (j, b, c, f)) ↦ omega (arith, x.above j (omega arith) (omega (arith, grown)), f)
    ];
  }

  pub next-IsSlot :
      (t target : ℕ)
      → key.k_offset < target
      → s ≤ t
      → IsSlot offset_of_key keys target t
      → IsSlot offset_of_key (insert_at keys s key) target (t + 1)
  next-IsSlot t target lt st x = record {
    bound = omega (arith, grown, x.bound);
    below = λ i p. elim (place i) [
      | inl (b, f) ↦ omega (arith, x.below i (omega arith), f)
      | inr (inl (b, f)) ↦ omega (arith, f)
      | inr (inr (j, b, c, f)) ↦ omega (arith, x.below j (omega arith), f)
    ];
    above = λ i ge p. elim (place i) [
      | inl (b, f) ↦ absurd (omega arith)
      | inr (inl (b, f)) ↦ absurd (omega arith)
      | inr (inr (j, b, c, f)) ↦ omega (arith, x.above j (omega arith) (omega (arith, grown)), f)
    ];
  }

  pub slot_before :
      (t target : ℕ) → target ≤ key.k_offset → IsSlot offset_of_key keys target t → t ≤ s
  slot_before t target le x = elim (dec_lt s t) [
    | yes lt ↦
        absurd (omega (arith, x.below s lt, slot.above s (omega arith) (omega (arith, x.bound))))
    | no ge ↦ omega arith
  ]

  pub slot_after :
      (t target : ℕ) → key.k_offset < target → IsSlot offset_of_key keys target t → s ≤ t
  slot_after t target lt x = elim (dec_lt t s) [
    | yes p ↦
        absurd (omega (arith, slot.below t p, x.above t (omega arith) (omega (arith, slot.bound))))
    | no ge ↦ omega arith
  ]
