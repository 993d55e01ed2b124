-- ===== src/LuaDebug/Reading.antt =====
-- The text of a dump, and the bytes read back from its columns.
use h1z1_server.Base.{
  ℕ, zero, suc, ◌+◌, ◌-◌, ◌*◌, ◌/◌, ◌%◌, ◌<◌, ◌≤◌, ◌≡◌, ◌≢◌, ◌⊎◌, inl, inr, refl, sym, ap, ◌∙◌,
  Bool, true, false, ◌||◌, some, List, [], ◌∷◌, ◌++◌, get_elem?, length, drop, take, All, IsByte,
  arith, ltb, ◌==◌, if◌then◌else◌, Bool-cases,
}
use mathlib.Core.List.{append_assoc}
use h1z1_server.LuaDebug.{hex_digit, hex_digits, offset_digits}

-- What stands behind the first character of this code.
unfoldable pub past : ℕ → List ℕ → List ℕ
past c [] = []
past c (b ∷ bs) = let rest = past c bs in if b == c then bs else rest

unfoldable has : ℕ → List ℕ → Bool
has c [] = false
has c (b ∷ bs) = (b == c) || has c bs

unfoldable pub hex_value : ℕ → ℕ
hex_value c = if ltb c 58 then c - 48 else c - 87

-- The bytes of up to `n` columns, and of up to `n` rows.
unfoldable pub read_columns : ℕ → List ℕ → List ℕ
unfolding hex_value
read_columns (suc n) (x ∷ y ∷ z ∷ text) =
    let rest = read_columns n text in
    if x == 32 then [] else (hex_value x * 16 + hex_value y) ∷ rest
read_columns _ _ = []

unfoldable pub read_rows : ℕ → List ℕ → List ℕ
unfolding read_columns past
read_rows zero text = []
read_rows (suc n) text =
    let rest = read_rows n (past 10 text) in read_columns 16 (drop 1 (past 58 text)) ++ rest

pub read_rows-nil : (n : ℕ) → read_rows n [] ≡ []
unfolding read_rows
read_rows-nil zero = refl
read_rows-nil (suc n) = read_rows-nil n

past-append : (c : ℕ) (xs ys : List ℕ) → has c xs ≡ false → past c (xs ++ c ∷ ys) ≡ ys
unfolding past has
past-append c [] ys h = ground arith
past-append c (x ∷ xs) ys h = ground (arith, past-append c xs ys, h)

has-append :
    (c : ℕ) (xs ys : List ℕ) → has c xs ≡ false → has c ys ≡ false → has c (xs ++ ys) ≡ false
unfolding has
has-append c [] ys h k = k
has-append c (x ∷ xs) ys h k = ground (arith, has-append c xs ys, h, k)

-- A digit, and its value.
hex_value-hex_digit : (n : ℕ) → n < 16 → hex_value (hex_digit n) ≡ n
unfolding hex_value hex_digit
hex_value-hex_digit n h = ground (arith, h)

hex_digit-other : (n c : ℕ) → (c < 48) ⊎ (c ≡ 58) → (n < 16) → (hex_digit n == c) ≡ false
unfolding hex_digit
hex_digit-other n c (inl h) k = ground (arith, h, k)
hex_digit-other n c (inr h) k = ground (arith, h, k)

has-hex_digits : (w n c : ℕ) → (c < 48) ⊎ (c ≡ 58) → has c (hex_digits w n) ≡ false
unfolding hex_digits has
has-hex_digits zero n c h = refl
has-hex_digits (suc w) n c h =
    has-append c (hex_digits w (n / 16)) (hex_digit (n % 16) ∷ []) (has-hex_digits w (n / 16) c h)
      (ground (arith, hex_digit-other (n % 16) c h (omega arith)))

has-offset_digits : (n c : ℕ) → (c < 48) ⊎ (c ≡ 58) → has c (offset_digits n) ≡ false
unfolding offset_digits
has-offset_digits n c h =
    ground (arith, has-hex_digits 6 n c h, has-hex_digits 7 n c h, has-hex_digits 8 n c h)

true-ne-false : true ≢ false
true-ne-false e = cc

-- What the two inner loops print of the bytes from an offset on.
unfoldable pub hexes : ℕ → List ℕ → List ℕ
unfolding hex_digit
hexes zero ys = []
hexes (suc n) [] = 32 ∷ 32 ∷ 32 ∷ hexes n []
hexes (suc n) (y ∷ ys) = hex_digit (y / 16 % 16) ∷ hex_digit (y % 16) ∷ 32 ∷ hexes n ys

unfoldable pub prints : (ℕ → Bool) → ℕ → List ℕ → List ℕ
prints p zero ys = []
prints p (suc n) [] = prints p n []
prints p (suc n) (y ∷ ys) = (if p y then y else 46) ∷ prints p n ys

read_columns-hexes :
    (n : ℕ) (ys text : List ℕ) → All IsByte ys → read_columns n (hexes n ys ++ text) ≡ take n ys
unfolding read_columns hexes
read_columns-hexes zero ys text h = refl
read_columns-hexes (suc n) [] text h = refl
read_columns-hexes (suc n) (y ∷ ys) text h =
    rw
      (
        hex_digit-other (y / 16 % 16) 32 (inl (omega arith)) (omega arith),
        hex_value-hex_digit (y / 16 % 16) (omega arith),
        hex_value-hex_digit (y % 16) (omega arith),
        read_columns-hexes n ys text h.1,
      )
      (ap (λ (b : ℕ). b ∷ take n ys) (omega (arith, h.0)))

has-hexes : (n : ℕ) (ys : List ℕ) → has 10 (hexes n ys) ≡ false
unfolding hexes has
has-hexes zero ys = refl
has-hexes (suc n) [] = has-hexes n []
has-hexes (suc n) (y ∷ ys) =
    rw
      (
        hex_digit-other (y / 16 % 16) 10 (inl (omega arith)) (omega arith),
        hex_digit-other (y % 16) 10 (inl (omega arith)) (omega arith),
      )
      (has-hexes n ys)

has-prints : (p : ℕ → Bool) (n : ℕ) (ys : List ℕ) → p 10 ≡ false → has 10 (prints p n ys) ≡ false
unfolding prints has
has-prints p zero ys h = refl
has-prints p (suc n) [] h = has-prints p n [] h
has-prints p (suc n) (y ∷ ys) h = rw (has-prints p n ys h) (printed y)
  where
    newline_code : (y : ℕ) → (y == 10) ≡ true → y ≡ 10
    newline_code y e = ground (arith, e)

    clash : {y : ℕ} → y ≡ 10 → p y ≡ true → ⊥
    clash e character = true-ne-false (sym character ∙ ap p e ∙ h)

    printed : (y : ℕ) → (((if p y then y else 46) == 10) || false) ≡ false
    printed y = elim (Bool-cases (p y)) [
      | inr dot ↦ rw dot refl
      | inl character ↦ elim (Bool-cases (y == 10)) [
        | inr other ↦ rw (character, other) refl
        | inl newline ↦ absurd (clash (newline_code y newline) character)
      ]
    ]

-- Whether an index is inside a list.
pub index-cases :
    {A : Type 0} (xs : List A) (k : ℕ)
    → ((length xs ≤ k) × (drop k xs ≡ []) × (drop (suc k) xs ≡ []))
      ⊎ ((k < length xs)
          × ((x : A) × (get_elem? xs k ≡ some x) × (drop k xs ≡ x ∷ drop (suc k) xs)))
index-cases [] zero = inl (omega arith, refl, refl)
index-cases [] (suc k) = inl (omega arith, refl, refl)
index-cases (x ∷ xs) zero = inr (omega arith, (x, refl, refl))
index-cases (x ∷ xs) (suc k) = elim (index-cases xs k) [
  | inl h ↦ inl (omega (arith, h.0), h.1, h.2)
  | inr h ↦ inr (omega (arith, h.0), (h.1.0, h.1.1, h.1.2))
]

pub drop-All : (P : ℕ → Type 0) (k : ℕ) (xs : List ℕ) → All P xs → All P (drop k xs)
drop-All P zero xs h = h
drop-All P (suc k) [] h = tt
drop-All P (suc k) (x ∷ xs) h = drop-All P k xs h.1

-- A row: its text up to the line's end.
unfoldable pub row : (ℕ → Bool) → ℕ → List ℕ → List ℕ
row p i ys = offset_digits i ++ (58 ∷ 32 ∷ hexes 16 ys ++ 32 ∷ prints p 16 ys)

pub past-row :
    (p : ℕ → Bool) (i : ℕ) (ys text : List ℕ)
    → p 10 ≡ false
    → past 10 (row p i ys ++ 10 ∷ text) ≡ text
unfolding row has
past-row p i ys text h = past-append 10 (row p i ys) text (
    has-append 10 (offset_digits i) (58 ∷ 32 ∷ hexes 16 ys ++ 32 ∷ prints p 16 ys)
      (has-offset_digits i 10 (inl (omega arith)))
      (has-append 10 (58 ∷ 32 ∷ hexes 16 ys) (32 ∷ prints p 16 ys) (has-hexes 16 ys)
        (has-prints p 16 ys h)))

pub read_columns-row :
    (p : ℕ → Bool) (i : ℕ) (ys text : List ℕ)
    → All IsByte ys
    → read_columns 16 (drop 1 (past 58 (row p i ys ++ text))) ≡ take 16 ys
unfolding row
read_columns-row p i ys text h =
    ap (λ (t : List ℕ). read_columns 16 (drop 1 (past 58 t)))
      (append_assoc (offset_digits i) (58 ∷ 32 ∷ hexes 16 ys ++ 32 ∷ prints p 16 ys) text)
    ∙ ap (λ (t : List ℕ). read_columns 16 (drop 1 t))
        (past-append 58 (offset_digits i) ((32 ∷ hexes 16 ys ++ 32 ∷ prints p 16 ys) ++ text)
          (has-offset_digits i 58 (inr refl)))
    ∙ ap (λ (t : List ℕ). read_columns 16 t) (append_assoc (hexes 16 ys) (32 ∷ prints p 16 ys) text)
    ∙ read_columns-hexes 16 ys ((32 ∷ prints p 16 ys) ++ text) h

pub drop-nil_beyond : (bytes : List ℕ) (k : ℕ) → length bytes ≤ k → drop k bytes ≡ []
drop-nil_beyond bytes k h = elim (index-cases bytes k) [
  | inl out ↦ out.1
  | inr inside ↦ absurd (omega (arith, inside.0))
]
