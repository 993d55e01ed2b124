-- ===== src/TableReader.antt =====
-- `LuaTableReader` (ServerSystem/LuaSystem/LuaManager). A reader refers to the interpreter's state,
-- which is passed along with it; a key, in the source a pointer into the stack, is the value that it
-- leads to.
pub mod Rounds
pub mod Traversal
pub mod Closing
pub mod Element
use h1z1_server.Base.{
  ℕ, ◌^◌, Bool, true, false, not, ◌&&◌, Option, none, some, List, [], ltb, ◌==◌, if◌then◌else◌,
  get_elem?, add32, minus_one, Outcome, done, threw, fault, null_state, not_table, ◌>>=◌,
}
use h1z1_server.Lua.{Lua, LuaType}
use h1z1_server.Lua.Access.{
  is_string, is_number, is_boolean, is_table, at_place, pop_values, string_at_top,
}

-- `bound`: whether `L` is not the null pointer.
pub record TableReader : Type 0 where
  pub bound : Bool
  pub table_ref : ℕ
  pub current_idx : ℕ

unfoldable pub init_reader : TableReader
init_reader = record { bound = false; table_ref = minus_one; current_idx = minus_one }

module _ {V H L D : Type 0} (lua : Lua V H L D) where
  -- `Setup`, with the table at a place of the stack; `given` says that the state is not null.
  unfoldable pub setup : Bool → TableReader → ℕ → L → Outcome (TableReader × L) (TableReader × L)
  unfolding at_place
  setup given r place l =
      if given
      then (do
        v ← at_place lua place l
        if is_table (lua.type_of v)
            then done (
              record {
                bound = true;
                table_ref = (lua.ref (lua.push v l)).0;
                current_idx = minus_one;
              },
              (lua.ref (lua.push v l)).1,
            )
            else threw not_table (r, l))
      else threw null_state (r, l)

  unfoldable pub close : TableReader → L → Outcome (TableReader × L) (TableReader × L)
  unfolding pop_values
  close r l =
      if r.bound && not (r.table_ref == 0)
      then (do
        l' ← if r.current_idx == 0 then done l else pop_values lua 2 l
        done (record r { bound = false; table_ref = minus_one }, lua.unref r.table_ref l'))
      else done (r, l)

  unfoldable pub get_key_string : TableReader → L → Outcome (TableReader × L) (List ℕ × L)
  unfolding at_place
  get_key_string r l = do
    k ← at_place lua 1 l
    if is_string (lua.type_of k)
        then elim (lua.to_lstring 1 l).0 [
          | none ↦ fault
          | some bs ↦ done (bs, (lua.to_lstring 1 l).1)
        ]
        else done ([], l)

  unfoldable pub get_key_idx : TableReader → ℕ
  get_key_idx r = r.current_idx

  unfoldable pub get_key_value : L → Outcome (TableReader × L) V
  unfolding at_place
  get_key_value l = at_place lua 1 l

  -- The table, the key, and the value in its place.
  unfoldable pub index_key : TableReader → V → L → L
  index_key r key l =
      lua.raw_get (lua.push key (lua.push (lua.ref_value (lua.heap l) r.table_ref) l))

  unfoldable pub get_string : TableReader → Option V → L → Outcome (TableReader × L) (List ℕ × L)
  unfolding at_place string_at_top pop_values index_key
  get_string r none l = string_at_top lua l
  get_string r (some key) l = do
    v ← at_place lua 0 (index_key r key l)
    if is_string (lua.type_of v)
        then (do
          s ← string_at_top lua (index_key r key l)
          l' ← pop_values lua 2 s.1
          done (s.0, l'))
        else done ([], index_key r key l)

  -- The result is an `int`: -1, 0 or 1.
  unfoldable pub get_bool : TableReader → Option V → L → Outcome (TableReader × L) (ℕ × L)
  unfolding at_place pop_values index_key
  get_bool r none l = do v ← at_place lua 0 l; done (if lua.to_boolean v then 1 else 0, l)
  get_bool r (some key) l = do
    v ← at_place lua 0 (index_key r key l)
    if is_boolean (lua.type_of v)
        then (do
          l' ← pop_values lua 2 (index_key r key l)
          done (if lua.to_boolean v then 1 else 0, l'))
        else done (minus_one, index_key r key l)

  unfoldable pub get_number : TableReader → Option V → L → Outcome (TableReader × L) (D × L)
  unfolding at_place pop_values index_key
  get_number r none l = do v ← at_place lua 0 l; done (lua.to_number v, l)
  get_number r (some key) l = do
    v ← at_place lua 0 (index_key r key l)
    if is_number (lua.type_of v)
        then (do l' ← pop_values lua 2 (index_key r key l); done (lua.to_number v, l'))
        else done (lua.number_minus_one, index_key r key l)

  unfoldable pub get_int : TableReader → Option V → L → Outcome (TableReader × L) (ℕ × L)
  unfolding at_place pop_values index_key
  get_int r none l = do v ← at_place lua 0 l; done (lua.to_integer v, l)
  get_int r (some key) l = do
    v ← at_place lua 0 (index_key r key l)
    if is_number (lua.type_of v)
        then (do l' ← pop_values lua 2 (index_key r key l); done (lua.to_integer v, l'))
        else done (minus_one, index_key r key l)

  -- A key whose value is no table: the result is made from a null state, which throws.
  unfoldable pub get_table :
      TableReader → Option V → L → Outcome (TableReader × L) (TableReader × L)
  unfolding at_place pop_values index_key setup
  get_table r none l = setup true init_reader 0 l
  get_table r (some key) l = do
    v ← at_place lua 0 (index_key r key l)
    if is_table (lua.type_of v)
        then (do
          t ← setup true init_reader 0 (index_key r key l)
          l' ← pop_values lua 2 t.1
          done (t.0, l'))
        else setup false init_reader 0 (index_key r key l)

  unfoldable pub get_key_type : L → Outcome (TableReader × L) LuaType
  unfolding at_place
  get_key_type l = do v ← at_place lua 1 l; done (lua.type_of v)

  unfoldable pub get_type : L → Outcome (TableReader × L) LuaType
  unfolding at_place
  get_type l = do v ← at_place lua 0 l; done (lua.type_of v)

  -- The index is an `int`, -1 before the first element.
  unfoldable pub next_element :
      TableReader → L → Outcome (TableReader × L) (Bool × (TableReader × L))
  unfolding pop_values
  next_element r l =
      if r.current_idx == minus_one
      then (let l' =
            lua.next (lua.push lua.nil (lua.push (lua.ref_value (lua.heap l) r.table_ref) l)) in
          done (l'.0, (record r { current_idx = 0 }, l'.1)))
      else (do
        l' ← pop_values lua 1 l
        done ((lua.next l').0, (record r { current_idx = add32 r.current_idx 1 }, (lua.next l').1)))

  unfoldable pub get_length : TableReader → L → Outcome (TableReader × L) (ℕ × L)
  unfolding at_place pop_values
  get_length r l =
      if ltb 0 r.current_idx && ltb r.current_idx (2 ^ 31)
      then (do v ← at_place lua 1 l; done (lua.objlen (lua.heap l) v, l))
      else (do
        v ← at_place lua 0 (lua.push (lua.ref_value (lua.heap l) r.table_ref) l)
        l' ← pop_values lua 1 (lua.push (lua.ref_value (lua.heap l) r.table_ref) l)
        done (lua.objlen (lua.heap l) v, l'))
