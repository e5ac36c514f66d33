-- ===== src/Kernel/Btree/Arrays.antt =====
-- Keys inserted at a slot of a node, and removed from one.
use aetherfs.Base.{ℕ, zero, suc, ◌+◌, ◌≤◌, ◌<◌, ◌≡◌, refl, ap, List, [], ◌∷◌, arith, length, get_or}
use aetherfs.Kernel.Btree.{Key, no_key, insert_at, remove_at}

pub length-insert_at :
    (keys : List Key) (slot : ℕ) (key : Key) → length (insert_at keys slot key) ≡ length keys + 1
unfolding insert_at
length-insert_at [] slot key = refl
length-insert_at (k ∷ keys) zero key = omega arith
length-insert_at (k ∷ keys) (suc slot) key = omega (arith, length-insert_at keys slot key)

pub get-insert_at_below :
    (keys : List Key) (slot i : ℕ) (key : Key)
    → slot ≤ length keys
    → i < slot
    → get_or (insert_at keys slot key) i no_key ≡ get_or keys i no_key
unfolding insert_at
get-insert_at_below [] slot i key h lt = absurd (omega arith)
get-insert_at_below (k ∷ keys) zero i key h lt = absurd (omega arith)
get-insert_at_below (k ∷ keys) (suc slot) zero key h lt = refl
get-insert_at_below (k ∷ keys) (suc slot) (suc i) key h lt =
    get-insert_at_below keys slot i key (omega arith) (omega arith)

pub get-insert_at_here :
    (keys : List Key) (slot : ℕ) (key : Key)
    → slot ≤ length keys
    → get_or (insert_at keys slot key) slot no_key ≡ key
unfolding insert_at
get-insert_at_here [] zero key h = refl
get-insert_at_here [] (suc slot) key h = absurd (omega arith)
get-insert_at_here (k ∷ keys) zero key h = refl
get-insert_at_here (k ∷ keys) (suc slot) key h = get-insert_at_here keys slot key (omega arith)

pub get-insert_at_above :
    (keys : List Key) (slot i : ℕ) (key : Key)
    → slot ≤ length keys
    → slot ≤ i
    → get_or (insert_at keys slot key) (suc i) no_key ≡ get_or keys i no_key
unfolding insert_at
get-insert_at_above [] zero i key h le = refl
get-insert_at_above [] (suc slot) i key h le = absurd (omega arith)
get-insert_at_above (k ∷ keys) zero i key h le = refl
get-insert_at_above (k ∷ keys) (suc slot) zero key h le = absurd (omega arith)
get-insert_at_above (k ∷ keys) (suc slot) (suc i) key h le =
    get-insert_at_above keys slot i key (omega arith) (omega arith)

pub remove_at-insert_at :
    (keys : List Key) (slot : ℕ) (key : Key)
    → slot ≤ length keys
    → remove_at (insert_at keys slot key) slot ≡ keys
unfolding insert_at remove_at
remove_at-insert_at [] zero key h = refl
remove_at-insert_at [] (suc slot) key h = absurd (omega arith)
remove_at-insert_at (k ∷ keys) zero key h = refl
remove_at-insert_at (k ∷ keys) (suc slot) key h =
    ap (λ t. k ∷ t) (remove_at-insert_at keys slot key (omega arith))

pub length-remove_at :
    (keys : List Key) (slot : ℕ)
    → slot < length keys
    → length (remove_at keys slot) + 1 ≡ length keys
unfolding remove_at
length-remove_at [] slot h = absurd (omega arith)
length-remove_at (k ∷ keys) zero h = omega arith
length-remove_at (k ∷ keys) (suc slot) h = omega (arith, length-remove_at keys slot (omega arith))

pub get-remove_at_below :
    (keys : List Key) (slot i : ℕ)
    → i < slot
    → get_or (remove_at keys slot) i no_key ≡ get_or keys i no_key
unfolding remove_at
get-remove_at_below [] slot i lt = refl
get-remove_at_below (k ∷ keys) zero i lt = absurd (omega arith)
get-remove_at_below (k ∷ keys) (suc slot) zero lt = refl
get-remove_at_below (k ∷ keys) (suc slot) (suc i) lt = get-remove_at_below keys slot i (omega arith)

pub get-remove_at_above :
    (keys : List Key) (slot i : ℕ)
    → slot ≤ i
    → get_or (remove_at keys slot) i no_key ≡ get_or keys (suc i) no_key
unfolding remove_at
get-remove_at_above [] slot i le = refl
get-remove_at_above (k ∷ keys) zero i le = refl
get-remove_at_above (k ∷ keys) (suc slot) zero le = absurd (omega arith)
get-remove_at_above (k ∷ keys) (suc slot) (suc i) le = get-remove_at_above keys slot i (omega arith)
