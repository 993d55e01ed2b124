-- ===== src/LuaStream.antt =====
-- The Lua objects for byte streams (ServerSystem/LuaSystem/Stream): their methods, with the
-- arguments that a script gives. The objects that `lua_newuserdata` makes are a list of streams, and
-- a userdata value stands for a place in it. The block of a reader that `GetBuffer` makes is the
-- writer's as it is then.
pub mod Methods
pub mod GetBuffer
use h1z1_server.Base.{
  ℕ, ◌+◌, ◌-◌, ◌^◌, ◌≡◌, Bool, true, false, Option, none, some, List, [], ◌∷◌, ◌++◌, get_elem?, set,
  ltb, ◌==◌, if◌then◌else◌, Outcome, done, threw, fault, script_error, ◌>>=◌,
}
use Prim.Native.String.{String}
use h1z1_server.Stream.Buffer.{Stream}
use h1z1_server.Stream.Text.{StringInterpretMode, given_size, given_size_null_term, until_null_term}

-- What a C function does with its arguments and values. `check_udata`: the place of a userdata with
-- the metatable of this name. `int_of` and `size_of`: the conversions of a floating-point number
-- to `int` and `size_t`, undefined where the number does not fit.
pub record Arguments (V D : Type 0) : Type 0 where
  pub check_udata : String → V → Option ℕ
  pub check_number : V → Option D
  pub check_bytes : V → Option (List ℕ)
  pub none_or_nil : V → Bool
  pub to_boolean : V → Bool
  pub to_string : V → Option (List ℕ)
  pub int_of : D → Option ℕ
  pub size_of : D → Option ℕ
  pub number : ℕ → V
  pub bytes : List ℕ → V
  pub userdata : String → ℕ → V
  pub check_udata-userdata :
      (name : String) (place : ℕ) → check_udata name (userdata name place) ≡ some place

module _ {V D : Type 0} (lua : Arguments V D) where
  -- An argument by its index, from 1, through a check that may raise a script's error.
  unfoldable pub argument : {A S : Type 0} → (V → Option A) → List V → ℕ → S → Outcome S A
  argument check args i s = elim (get_elem? args (i - 1)) [
    | none ↦ threw script_error s
    | some v ↦ elim (check v) [ none ↦ threw script_error s | some a ↦ done a ]
  ]

  -- `int value = luaL_checknumber(L, i)`.
  unfoldable pub int_argument : {S : Type 0} → List V → ℕ → S → Outcome S ℕ
  unfolding argument
  int_argument args i s = do
    d ← argument lua.check_number args i s
    elim (lua.int_of d) [ none ↦ fault | some n ↦ done n ]

  -- A mode by its number; `none` is a number that is none of them.
  unfoldable pub mode_argument :
      {S : Type 0} → List V → ℕ → S → Outcome S (Option StringInterpretMode)
  unfolding int_argument
  mode_argument args i s = do
    n ← int_argument args i s
    if n == 0
        then done (some until_null_term)
        else if n == 1
        then done (some given_size)
        else if n == 2
        then done (some given_size_null_term)
        else done none

-- A stream's method on the object at a place. What it throws leaves the object as it then is.
unfoldable pub on_object :
    {A : Type 0}
    → List Stream
    → ℕ
    → (Stream → Outcome Stream (A × Stream))
    → Outcome (List Stream) (A × List Stream)
on_object objects place method = elim (get_elem? objects place) [
  | none ↦ fault
  | some s ↦ elim (method s) [
    | done r ↦ done (r.0, set objects place r.1)
    | threw e t ↦ threw e (set objects place t)
    | fault ↦ fault
  ]
]

-- An `int` as an unsigned word of 8 bytes: its sign goes on.
unfoldable pub extend : ℕ → ℕ
extend n = if ltb n (2 ^ 31) then n else n + (2 ^ 64 - 2 ^ 32)
