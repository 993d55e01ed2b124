-- ===== src/Lua/Access.antt =====
-- Reads and pops at places of the stack: outside of it they are undefined.
use h1z1_server.Base.{
  ◌≡◌, refl, ◌≤◌, ◌∙◌, ap, drop, arith, le→leb, ◌∷◌, ℕ, Bool, true, false, none, some, List, length,
  get_elem?, leb, if◌then◌else◌, Outcome, done, fault,
}
use h1z1_server.Lua.{Lua, LuaType, string_type, number_type, boolean_type, table_type}

abbrev pub is_string : LuaType → Bool
is_string string_type = true
is_string _ = false

abbrev pub is_number : LuaType → Bool
is_number number_type = true
is_number _ = false

abbrev pub is_boolean : LuaType → Bool
is_boolean boolean_type = true
is_boolean _ = false

abbrev pub is_table : LuaType → Bool
is_table table_type = true
is_table _ = false

pub is_string-true : (t : LuaType) → is_string t ≡ true → t ≡ string_type
is_string-true string_type e = refl
is_string-true _ e = cc

module _ {V H L D S : Type 0} (lua : Lua V H L D) where
  -- The value at a place, counted from the top.
  unfoldable pub at_place : ℕ → L → Outcome S V
  at_place i l = elim (get_elem? (lua.stack l) i) [ none ↦ fault | some v ↦ done v ]

  -- `lua_pop` of values that are there.
  unfoldable pub pop_values : ℕ → L → Outcome S L
  pop_values n l = if leb n (length (lua.stack l)) then done (lua.pop n l) else fault

  -- A `std::string` made of what `lua_tolstring` gives at the top, which may be the null pointer.
  unfoldable pub string_at_top : L → Outcome S (List ℕ × L)
  string_at_top l = elim (lua.to_lstring 0 l).0 [
    | none ↦ fault
    | some bs ↦ done (bs, (lua.to_lstring 0 l).1)
  ]

  pub at_top : (v : V) (vs : List V) (l : L) → lua.stack l ≡ v ∷ vs → at_place 0 l ≡ done v
  unfolding at_place
  at_top v vs l e = rw (at_place, e)

  pub at_second : (v w : V) (vs : List V) (l : L) → lua.stack l ≡ v ∷ w ∷ vs → at_place 1 l ≡ done w
  unfolding at_place
  at_second v w vs l e = rw (at_place, e)

  pub pop_values_lem :
      (n : ℕ) (l : L) → n ≤ length (lua.stack l) → pop_values n l ≡ done (lua.pop n l)
  unfolding pop_values
  pop_values_lem n l h = rw (le→leb n (length (lua.stack l)) h)

  pub string_at_top_lem :
      (v : V) (vs : List V) (l : L)
      → lua.stack l ≡ v ∷ vs
      → lua.type_of v ≡ string_type
      → string_at_top l ≡ done (lua.bytes v, l)
  unfolding string_at_top
  string_at_top_lem v vs l e string =
      let given = lua.to_lstring-string 0 l v (ap (λ ws. get_elem? ws 0) e) string in
      rw (string_at_top, ap (λ p. p.0) given) (ap (λ p. done (lua.bytes v, p.1)) given)

module _ {V H L D : Type 0} (lua : Lua V H L D) where
  pub stack-pop_one :
      (l : L) (v : V) (vs : List V) → lua.stack l ≡ v ∷ vs → lua.stack (lua.pop 1 l) ≡ vs
  stack-pop_one l v vs e = lua.stack-pop 1 l (omega (arith, ap length e)) ∙ ap (drop 1) e

  pub heap-pop_one :
      (l : L) (v : V) (vs : List V) → lua.stack l ≡ v ∷ vs → lua.heap (lua.pop 1 l) ≡ lua.heap l
  heap-pop_one l v vs e = lua.heap-pop 1 l (omega (arith, ap length e))
