-- ===== src/Sockets/UserData.antt =====
-- The `std::map` from handlers to user data, as an association list.
use h1z1_server.Base.{
  ℕ, ◌<◌, ◌≡◌, refl, ◌⊎◌, Option, none, some, List, [], ◌∷◌, ◌==◌, if◌then◌else◌, arith,
}

unfoldable pub lookup : ℕ → List (ℕ × ℕ) → Option ℕ
lookup k [] = none
lookup k (e ∷ m) = let rest = lookup k m in if e.0 == k then some e.1 else rest

unfoldable pub insert : ℕ → ℕ → List (ℕ × ℕ) → List (ℕ × ℕ)
insert k v [] = (k, v) ∷ []
insert k v (e ∷ m) = let rest = insert k v m in if e.0 == k then (k, v) ∷ m else e ∷ rest

unfoldable pub erase : ℕ → List (ℕ × ℕ) → List (ℕ × ℕ)
erase k [] = []
erase k (e ∷ m) = let rest = erase k m in if e.0 == k then rest else e ∷ rest

-- The two handlers differ.
abbrev pub Differs : ℕ → ℕ → Type 0
Differs a b = (a < b) ⊎ (b < a)

pub lookup-insert : (k v : ℕ) (m : List (ℕ × ℕ)) → lookup k (insert k v m) ≡ some v
unfolding lookup insert
lookup-insert k v [] = ground arith
lookup-insert k v (e ∷ m) = ground (arith, lookup-insert k v m)

pub lookup-insert_other :
    (j k v : ℕ) (m : List (ℕ × ℕ)) → Differs j k → lookup j (insert k v m) ≡ lookup j m
unfolding lookup insert
lookup-insert_other j k v [] h = ground arith
lookup-insert_other j k v (e ∷ m) h = ground (arith, lookup-insert_other j k v m h)

erase-none : (k : ℕ) (m : List (ℕ × ℕ)) → lookup k m ≡ none → erase k m ≡ m
unfolding lookup erase
erase-none k [] h = refl
erase-none k (e ∷ m) h = ground (arith, erase-none k m, h)

pub lookup-erase : (k : ℕ) (m : List (ℕ × ℕ)) → lookup k (erase k m) ≡ none
unfolding lookup erase
lookup-erase k [] = refl
lookup-erase k (e ∷ m) = ground (arith, lookup-erase k m)

pub lookup-erase_other :
    (j k : ℕ) (m : List (ℕ × ℕ)) → Differs j k → lookup j (erase k m) ≡ lookup j m
unfolding lookup erase
lookup-erase_other j k [] h = refl
lookup-erase_other j k (e ∷ m) h = ground (arith, lookup-erase_other j k m h)

pub erase-insert : (k v : ℕ) (m : List (ℕ × ℕ)) → lookup k m ≡ none → erase k (insert k v m) ≡ m
unfolding lookup insert erase
erase-insert k v [] h = ground arith
erase-insert k v (e ∷ m) h = ground (arith, erase-insert k v m, h, erase-none k m)
