-- ===== src/Rc4/Schedule.antt =====
-- `Initialize`: it succeeds for every key of 1 to 256 bytes, and the loop of the key schedule
-- rearranges the 256 bytes of `sbox` together with the four bytes of memory behind them.
use h1z1_server.Base.{
  false, take-append-drop, take-set, drop-set, ℕ, zero, suc, ◌+◌, ◌%◌, ◌≤◌, ◌<◌, ◌≡◌, refl, sym,
  ◌∙◌, ap, ap₂, List, [], ◌∷◌, ◌++◌, length, get_or, set, take, drop, arith, Outcome, done,
  length-set, le→ltb, le→leb, ◌==◌, if◌then◌else◌, le_bytes,
}
use mathlib.Core.List.{append_assoc}
use h1z1_server.Rc4.{Crc4, swap, fill, schedule, keep_key, initialize}
use h1z1_server.Rc4.Keystream.{at_index-get_or, length-swap}

-- One if the two are the same.
abbrev pub one : ℕ → ℕ → ℕ
one x a = if x == a then 1 else 0

-- How often `a` stands in a list.
abbrev pub count : ℕ → List ℕ → ℕ
count a [] = 0
count a (x ∷ xs) = one x a + count a xs

count-set :
    (a : ℕ) (m : List ℕ) (i v : ℕ)
    → i < length m
    → count a (set m i v) + one (get_or m i 0) a ≡ count a m + one v a
count-set a [] i v h = absurd (omega arith)
count-set a (x ∷ m) zero v h = omega arith
count-set a (x ∷ m) (suc i) v h = omega (arith, count-set a m i v (omega arith))

get_or-set :
    (m : List ℕ) (i j : ℕ) → j < length m → get_or (set m i (get_or m j 0)) j 0 ≡ get_or m j 0
get_or-set [] i j h = absurd (omega arith)
get_or-set (x ∷ m) zero zero h = refl
get_or-set (x ∷ m) zero (suc j) h = refl
get_or-set (x ∷ m) (suc i) zero h = refl
get_or-set (x ∷ m) (suc i) (suc j) h = get_or-set m i j (omega arith)

count-swap :
    (a : ℕ) (m : List ℕ) (i j : ℕ) → i < length m → j < length m → count a (swap m i j) ≡ count a m
count-swap a m i j hi hj = omega (
  arith,
  count-set a m i (get_or m j 0) hi,
  count-set a (set m i (get_or m j 0)) j (get_or m i 0)
      (omega (arith, length-set m i (get_or m j 0), hj)),
  ap (λ (x : ℕ). one x a) (get_or-set m i j hj),
)

-- A rearrangement, of the same length.
pub record Rearranged (m : List ℕ) (r : Outcome Crc4 (List ℕ)) : Type 0 where
  pub out : List ℕ
  pub returns : r ≡ done out
  pub same_length : length out ≡ length m
  pub same_counts : (a : ℕ) → count a out ≡ count a m

schedule-Rearranged :
    (key : List ℕ) (size n i j : ℕ) (m : List ℕ)
    → 0 < size
    → size ≤ length key
    → 256 ≤ length m
    → i + n ≤ length m
    → Rearranged m (schedule key size n i j m)
unfolding schedule
schedule-Rearranged key size zero i j m pos fits room bound = record {
  out = m;
  returns = refl;
  same_length = refl;
  same_counts = λ a. refl;
}
schedule-Rearranged key size (suc n) i j m pos fits room bound =
    let rest =
      schedule-Rearranged key size n (i + 1) j' (swap m i j') pos fits (omega (arith, same, room))
        (omega (arith, same, bound)) in
    record {
      out = rest.out;
      returns =
          rw (at_index-get_or key (i % size) in_key, at_index-get_or m i (omega arith))
            rest.returns;
      same_length = rest.same_length ∙ same;
      same_counts =
          λ a. rest.same_counts a ∙ count-swap a m i j' (omega arith) (omega (arith, room));
    }
  where
    j' : ℕ
    j' = (j + get_or key (i % size) 0 + get_or m i 0) % 256

    same : length (swap m i j') ≡ length m
    same = length-swap m i j'

    in_key : i % size < length key
    in_key = grind arith

length-fill : (n i : ℕ) (m : List ℕ) → length (fill n i m) ≡ length m
unfolding fill
length-fill zero i m = refl
length-fill (suc n) i m = length-fill n (i + 1) (set m i (i % 256)) ∙ length-set m i (i % 256)

-- The numbers from `i` on.
pub ascending : ℕ → ℕ → List ℕ
ascending zero i = []
ascending (suc n) i = i ∷ ascending n (suc i)

fill-ascending :
    (n i : ℕ) (m : List ℕ)
    → i + n ≤ 256
    → i + n ≤ length m
    → fill n i m ≡ take i m ++ (ascending n i ++ drop (i + n) m)
unfolding fill ascending
fill-ascending zero i m h k =
    sym (ap (λ (j : ℕ). take i m ++ drop j m) (omega arith) ∙ take-append-drop i m)
fill-ascending (suc n) i m h k =
    fill-ascending n (i + 1) m' (omega arith) (omega (arith, length-set m i (i % 256), k))
    ∙ ap (λ (j : ℕ). take j m' ++ (ascending n j ++ drop (j + n) m')) {y = suc i} (omega arith)
    ∙ ap₂ (λ (front back : List ℕ). front ++ (ascending n (suc i) ++ back))
        (take-set m i (i % 256) (omega arith)
          ∙ ap (λ (x : ℕ). take i m ++ x ∷ []) {y = i} (omega arith))
        (drop-set m i (suc i + n) (i % 256) (omega arith)
          ∙ ap (λ (j : ℕ). drop j m) {y = i + suc n} (omega arith))
    ∙ append_assoc (take i m) (i ∷ []) (ascending n (suc i) ++ drop (i + suc n) m)
  where
    m' : List ℕ
    m' = set m i (i % 256)

-- `Initialize` with a key of 1 to 256 bytes, on an object with its three bytes of memory behind
-- it, succeeds; the key is kept behind its size, `sbox_free` is set, and the rest of the memory
-- from `sbox` on is that of a rearrangement of the numbers below 256 and of the four bytes that
-- stood behind `sbox`.
pub initialize-Rearranged :
    (c : Crc4) (key : List ℕ) (size : ℕ)
    → length c.memory ≡ 260
    → 0 < size
    → size ≤ 256
    → size ≤ length key
    → (m : List ℕ) × (initialize c key size
        ≡ done (record {
          key = le_bytes 4 size ++ (take size key ++ drop (4 + size) c.key);
          memory = set m 256 1;
        }))
      × (length m ≡ 260)
      × ((a : ℕ) → count a m ≡ count a (ascending 256 0 ++ drop 256 c.memory))
unfolding initialize keep_key
initialize-Rearranged c key size room pos small fits = (
  r.out,
  rw (le→ltb 256 size small, positive, r.returns, le→leb size (length key) fits),
  r.same_length ∙ filled_length,
  λ a. r.same_counts a ∙ ap (count a) filled,
)
  where
    filled : fill 256 0 c.memory ≡ ascending 256 0 ++ drop 256 c.memory
    filled = fill-ascending 256 0 c.memory (omega arith) (omega (arith, room))

    filled_length : length (fill 256 0 c.memory) ≡ 260
    filled_length = length-fill 256 0 c.memory ∙ room

    r : Rearranged (fill 256 0 c.memory) (schedule key size 260 0 0 (fill 256 0 c.memory))
    r =
        schedule-Rearranged key size 260 0 0 (fill 256 0 c.memory) pos fits
          (omega (arith, filled_length)) (omega (arith, filled_length))

    positive : (size == 0) ≡ false
    positive = ground (arith, pos)
