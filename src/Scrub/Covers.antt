-- ===== src/Scrub/Covers.antt =====
-- Lists of intervals that pass the test of the coverage hold each block of the data region once.
use aetherfs.Base.{
  ℕ, ◌+◌, ◌^◌, ◌≤◌, ◌<◌, ◌≡◌, ◌∙◌, refl, Bool, true, false, ◌&&◌, List, [], ◌∷◌, ◌++◌, All, ok,
  einval, arith, if◌then◌else◌, ltb, leb, ◌⊎◌, ◌/=◌, ◌==◌, u64, fail_if, seq_ok, /=→eq, ltb→lt,
  ltb→ge, Bool-cases, inl, inr,
}
use aetherfs.Format.{data_start_block}
use aetherfs.Redundancy.{Interval}
use aetherfs.Scrub.Coverage.{
  interval, interval_list_append, interval_leb, insert, sort, add_used, contiguous, check_coverage,
}

-- Whether a block lies in an interval, and in how many of a list it lies.
abbrev pub holds : ℕ → Interval → Bool
holds b item = leb item.start b && ltb b (item.start + item.len)

unfoldable pub owners : ℕ → List Interval → ℕ
owners b [] = 0
owners b (item ∷ items) = (if holds b item then 1 else 0) + owners b items

-- The intervals that do not start in the bootstrap blocks.
unfoldable pub past_bootstrap : List Interval → List Interval
past_bootstrap [] = []
past_bootstrap (item ∷ items) =
    let rest = past_bootstrap items in if ltb item.start data_start_block then rest else item ∷ rest

-- An interval of 64-bit numbers that ends, by the sum of the machine, inside the image.
pub record IsBounded (blocks : ℕ) (item : Interval) : Type 0 where
  pub len_fits : item.len < 2 ^ 64
  pub end_inside : u64 (item.start + item.len) ≤ blocks

-- An interval that the test leaves out, or one that ends inside the image.
abbrev pub IsUsable : ℕ → Interval → Type 0
IsUsable blocks item = (item.start < data_start_block) ⊎ IsBounded blocks item

-- No interval starts after the one behind it.
abbrev IsAscending : List Interval → Type 0
IsAscending [] = Unit {0}
IsAscending (x ∷ xs) = All (λ y. x.start ≤ y.start) xs × IsAscending xs

insert-All :
    (P : Interval → Type 0) (x : Interval) (ys : List Interval)
    → P x
    → All P ys
    → All P (insert x ys)
unfolding insert
insert-All P x [] h k = (h, tt)
insert-All P x (y ∷ ys) h k = elim (Bool-cases (interval_leb x y)) [
  | inl before ↦ let all : All P (x ∷ y ∷ ys) = (h, k) in rw before all
  | inr after ↦ let all : All P (y ∷ insert x ys) = (k.0, insert-All P x ys h k.1) in rw after all
]

sort-All : (P : Interval → Type 0) (xs : List Interval) → All P xs → All P (sort xs)
unfolding sort
sort-All P [] h = tt
sort-All P (x ∷ xs) h = insert-All P x (sort xs) h.0 (sort-All P xs h.1)

weaken :
    (a b : ℕ) (xs : List Interval) → a ≤ b → All (λ y. b ≤ y.start) xs → All (λ y. a ≤ y.start) xs
weaken a b [] h k = tt
weaken a b (x ∷ xs) h k = (omega (arith, k.0), weaken a b xs h k.1)

insert-IsAscending :
    (x : Interval) (ys : List Interval) → IsAscending ys → IsAscending (insert x ys)
unfolding insert interval_leb
insert-IsAscending x [] h = (tt, tt)
insert-IsAscending x (y ∷ ys) h = elim (Bool-cases (interval_leb x y)) [
  | inl before ↦
      let le : x.start ≤ y.start = ground arith in
      let all : IsAscending (x ∷ y ∷ ys) = ((le, weaken x.start y.start ys le h.0), h) in
      rw before all
  | inr after ↦
      let ge : y.start ≤ x.start = ground arith in
      let all : IsAscending (y ∷ insert x ys) =
        (insert-All (λ z. y.start ≤ z.start) x ys ge h.0, insert-IsAscending x ys h.1) in
      rw after all
]

sort-IsAscending : (xs : List Interval) → IsAscending (sort xs)
unfolding sort
sort-IsAscending [] = tt
sort-IsAscending (x ∷ xs) = insert-IsAscending x (sort xs) (sort-IsAscending xs)

owners-insert :
    (b : ℕ) (x : Interval) (ys : List Interval) → owners b (insert x ys) ≡ owners b (x ∷ ys)
unfolding owners insert
owners-insert b x [] = refl
owners-insert b x (y ∷ ys) = ground (arith, owners-insert b x ys)

owners-sort : (b : ℕ) (xs : List Interval) → owners b (sort xs) ≡ owners b xs
unfolding owners sort
owners-sort b [] = refl
owners-sort b (x ∷ xs) = omega (arith, owners-insert b x (sort xs), owners-sort b xs)

owners-past-insert :
    (b : ℕ) (x : Interval) (ys : List Interval)
    → owners b (past_bootstrap (insert x ys)) ≡ owners b (past_bootstrap (x ∷ ys))
unfolding owners insert past_bootstrap
owners-past-insert b x [] = refl
owners-past-insert b x (y ∷ ys) = ground (arith, owners-past-insert b x ys)

owners-past-sort :
    (b : ℕ) (xs : List Interval)
    → owners b (past_bootstrap (sort xs)) ≡ owners b (past_bootstrap xs)
unfolding owners sort past_bootstrap
owners-past-sort b [] = refl
owners-past-sort b (x ∷ xs) =
    owners-past-insert b x (sort xs) ∙ ground (arith, owners-past-sort b xs)

owners-append : (b : ℕ) (xs ys : List Interval) → owners b (xs ++ ys) ≡ owners b xs + owners b ys
unfolding owners
owners-append b [] ys = omega arith
owners-append b (x ∷ xs) ys = omega (arith, owners-append b xs ys)

-- An interval of no blocks is not appended, and no block lies in it.
pub owners-interval_list_append :
    (b : ℕ) (coverage : List Interval) (item : Interval)
    → owners b (interval_list_append coverage item.start item.len)
      ≡ owners b coverage + (if holds b item then 1 else 0)
unfolding interval_list_append owners
owners-interval_list_append b coverage item = ground (arith, owners-append b coverage (item ∷ []))

owners-add_used :
    (b : ℕ) (coverage used : List Interval)
    → owners b (add_used coverage used) ≡ owners b coverage + owners b (past_bootstrap used)
unfolding add_used past_bootstrap owners
owners-add_used b coverage [] = omega arith
owners-add_used b coverage (item ∷ used) = elim (Bool-cases (ltb item.start data_start_block)) [
  | inl early ↦ rw (early, owners-add_used b coverage used)
  | inr late ↦
      let more = interval_list_append coverage item.start item.len in
      let sum : owners b (add_used more used)
          ≡ owners b coverage + ((if holds b item then 1 else 0) + owners b (past_bootstrap used)) =
        omega (arith, owners-add_used b more used, owners-interval_list_append b coverage item) in
      rw (late, sum)
]

append-All :
    (P : Interval → Type 0) (xs ys : List Interval) → All P xs → All P ys → All P (xs ++ ys)
append-All P [] ys h k = k
append-All P (x ∷ xs) ys h k = (h.0, append-All P xs ys h.1 k)

pub interval_list_append-All :
    (P : Interval → Type 0) (list : List Interval) (start len : ℕ)
    → All P list
    → P (interval start len)
    → All P (interval_list_append list start len)
unfolding interval_list_append
interval_list_append-All P list start len h k = elim (Bool-cases (len == 0)) [
  | inl empty ↦ rw empty h
  | inr full ↦ rw full (append-All P list (interval start len ∷ []) h (k, tt))
]

add_used-All :
    (P : Interval → Type 0) (coverage used : List Interval)
    → All P coverage
    → All (λ x. (x.start < data_start_block) ⊎ P x) used
    → All P (add_used coverage used)
unfolding add_used
add_used-All P coverage [] h k = h
add_used-All P coverage (item ∷ used) h k = elim (Bool-cases (ltb item.start data_start_block)) [
  | inl early ↦ rw early (add_used-All P coverage used h k.1)
  | inr late ↦
      let this : P item = past item late k.0 in
      rw late (
        add_used-All P (interval_list_append coverage item.start item.len) used
          (interval_list_append-All P coverage item.start item.len h this) k.1)
]
  where
    past :
        (x : Interval)
        → ltb x.start data_start_block ≡ false
        → (x.start < data_start_block) ⊎ P x
        → P x
    past x late (inl early) = absurd (ground arith)
    past x late (inr h) = h

no_wrap :
    (blocks : ℕ) (item : Interval) (items : List Interval)
    → blocks < 2 ^ 64
    → item.start ≤ blocks
    → IsBounded blocks item
    → All (λ y. item.start ≤ y.start) items
    → contiguous blocks (u64 (item.start + item.len)) items ≡ ok tt
    → item.start + item.len < 2 ^ 64
unfolding contiguous
no_wrap blocks item [] fits inside bounded above h =
    let len_fits = bounded.len_fits in
    let same : u64 (item.start + item.len) ≡ blocks =
      ground (arith, /=→eq (u64 (item.start + item.len)) blocks) in
    omega (arith, len_fits, same, inside)
no_wrap blocks item (y ∷ items) fits inside bounded above h =
    let len_fits = bounded.len_fits in
    let end = u64 (item.start + item.len) in
    let (here, rest) =
      seq_ok (fail_if (y.start /= end) einval) (contiguous blocks (u64 (y.start + y.len)) items) tt
        h in
    let same : y.start ≡ end = ground (arith, /=→eq y.start end) in
    let later : item.start ≤ y.start = above.0 in omega (arith, len_fits, same, inside, later)

-- Where contiguous intervals start at the cursor and end at the end of the image, each block from the
-- cursor on lies in one of them, and no block before it.
record IsExact (blocks cursor : ℕ) (items : List Interval) : Type 0 where
  once : (b : ℕ) → cursor ≤ b → b < blocks → owners b items ≡ 1
  never : (b : ℕ) → b < cursor → owners b items ≡ 0

contiguous-IsExact :
    (blocks cursor : ℕ) (items : List Interval)
    → blocks < 2 ^ 64
    → cursor ≤ blocks
    → All (IsBounded blocks) items
    → IsAscending items
    → contiguous blocks cursor items ≡ ok tt
    → IsExact blocks cursor items
unfolding contiguous owners
contiguous-IsExact blocks cursor [] fits inside bounded ascending h =
    let same : cursor ≡ blocks = ground (arith, /=→eq cursor blocks) in
    record { once = λ b lo hi. absurd (omega arith); never = λ b hi. refl }
contiguous-IsExact blocks cursor (item ∷ items) fits inside bounded ascending h =
    let end = u64 (item.start + item.len) in
    let (here, rest) =
      seq_ok (fail_if (item.start /= cursor) einval) (contiguous blocks end items) tt h in
    let same : item.start ≡ cursor = ground (arith, /=→eq item.start cursor) in
    let len_fits = bounded.0.len_fits in
    let end_inside = bounded.0.end_inside in
    let exact = contiguous-IsExact blocks end items fits end_inside bounded.1 ascending.1 rest in
    let straight : item.start + item.len < 2 ^ 64 =
      no_wrap blocks item items fits (omega arith) bounded.0 ascending.0 rest in
    let whole : end ≡ item.start + item.len = omega (arith, straight) in
    record {
      once = λ b lo hi. elim (Bool-cases (ltb b end)) [
        | inl inner ↦
            let none = exact.never b (ltb→lt b end inner) in
            let here : holds b item ≡ true = ground arith in rw (here, none)
        | inr outer ↦
            let one = exact.once b (ltb→ge b end outer) hi in
            let here : holds b item ≡ false = ground arith in rw (here, one)
      ];
      never = λ b hi.
          let none = exact.never b (omega (arith, whole, same, hi)) in
          let here : holds b item ≡ false = ground arith in rw (here, none);
    }

-- Where free and used intervals pass the test of the coverage, each block of the data region lies in
-- exactly one of the intervals that start past the bootstrap blocks.
pub check_coverage-owners :
    (blocks b : ℕ) (free used : List Interval)
    → data_start_block ≤ blocks
    → blocks < 2 ^ 64
    → All (IsBounded blocks) free
    → All (IsUsable blocks) used
    → check_coverage blocks free used ≡ ok tt
    → data_start_block ≤ b
    → b < blocks
    → owners b free + owners b (past_bootstrap used) ≡ 1
unfolding check_coverage
check_coverage-owners blocks b free used room fits free_bounded used_bounded h lo hi =
    let all = add_used free (sort used) in
    let exact =
      contiguous-IsExact blocks data_start_block (sort all) fits room
        (sort-All (IsBounded blocks) all (
          add_used-All (IsBounded blocks) free (sort used) free_bounded
            (sort-All (IsUsable blocks) used used_bounded)))
        (sort-IsAscending all) h in
    omega (
      arith,
      exact.once b lo hi,
      owners-sort b all,
      owners-add_used b free (sort used),
      owners-past-sort b used,
    )
