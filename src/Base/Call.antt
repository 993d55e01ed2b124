-- ===== src/Base/Call.antt =====
-- What a call of the C++ code comes to: a normal return, an exception, which leaves the object in
-- the state that it had when it was thrown, or a step that the language leaves undefined, such as
-- an access outside a block of memory.

use mathlib.Core.Path.{◌≡◌, refl}

-- The exceptions, by their cause, which the message tells; `script_error` is one of Lua.
pub data Error : Type 0 where
  null_buffer invalid_index too_many_bytes length_error key_too_big null_state not_table
        script_error :
      Error

pub data Outcome {ℓ κ} (S : Type ℓ) (A : Type κ) : Type (ℓ ⊔ κ) where
  done : A → Outcome S A
  threw : Error → S → Outcome S A
  fault : Outcome S A

infixl 5 ◌>>=◌
abbrev pub ◌>>=◌ {ℓ κ μ} :
    {S : Type ℓ} {A : Type κ} {B : Type μ} → Outcome S A → (A → Outcome S B) → Outcome S B
done a >>= f = f a
threw e s >>= f = threw e s
fault >>= f = fault

pub >>=_assoc {ℓ κ μ ν} :
    {S : Type ℓ} {A : Type κ} {B : Type μ} {C : Type ν} (m : Outcome S A) (f : A → Outcome S B)
    (g : B → Outcome S C)
    → (m >>= λ a. f a >>= g) ≡ m >>= f >>= g
>>=_assoc (done a) f g = refl
>>=_assoc (threw e s) f g = refl
>>=_assoc fault f g = refl

-- A chain that returns has steps that return.
pub >>=-eq-done {ℓ κ μ} :
    {S : Type ℓ} {A : Type κ} {B : Type μ} (m : Outcome S A) (f : A → Outcome S B) {b : B}
    → m >>= f ≡ done b
    → (a : A) × (m ≡ done a) × (f a ≡ done b)
>>=-eq-done (done a) f h = (a, refl, h)
>>=-eq-done (threw e s) f h = cc
>>=-eq-done fault f h = cc
