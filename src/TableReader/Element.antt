-- ===== src/TableReader/Element.antt =====
-- Elements by key: what the getters return, and what they leave on the stack.
use h1z1_server.Base.{
  Bool-cases, inl, inr, minus_one, ◌≡◌, ◌∙◌, ap, Bool, false, some, List, [], ◌∷◌, length, arith,
  done, drop, threw, null_state, if◌then◌else◌,
}
use h1z1_server.Lua.{Lua, table_type}
use h1z1_server.Lua.Access.{
  is_string-true, is_number, is_boolean, pop_values, string_at_top_lem, is_string, is_table,
  at_place, at_top, pop_values_lem,
}
use h1z1_server.TableReader.{
  setup, get_int, get_number, get_bool, TableReader, index_key, get_string, get_table, init_reader,
}

module _ {V H L D : Type 0} (lua : Lua V H L D) (r : TableReader) (l : L) (key : V) where
  -- The element that stands under the key.
  abbrev pub element : V
  element = lua.entry (lua.heap l) (lua.ref_value (lua.heap l) r.table_ref) key

  index_key_lem :
      lua.type_of (lua.ref_value (lua.heap l) r.table_ref) ≡ table_type
      → lua.stack (index_key lua r key l)
        ≡ element ∷ lua.ref_value (lua.heap l) r.table_ref ∷ lua.stack l
  unfolding index_key
  index_key_lem table =
      lua.stack-raw_get (lua.push key (lua.push (lua.ref_value (lua.heap l) r.table_ref) l)) key
        (lua.ref_value (lua.heap l) r.table_ref) (lua.stack l)
        (lua.stack-push key (lua.push (lua.ref_value (lua.heap l) r.table_ref) l)
          ∙ ap (◌∷◌ key) (lua.stack-push (lua.ref_value (lua.heap l) r.table_ref) l))
        table
      ∙ ap
          (λ h.
            lua.entry h (lua.ref_value (lua.heap l) r.table_ref) key
            ∷ lua.ref_value (lua.heap l) r.table_ref
            ∷ lua.stack l)
          (lua.heap-push key (lua.push (lua.ref_value (lua.heap l) r.table_ref) l)
            ∙ lua.heap-push (lua.ref_value (lua.heap l) r.table_ref) l)

  -- The stack that a getter leaves: as it was, or with the table and the element on top.
  abbrev pub left : Bool → List V
  left fits =
      if fits then lua.stack l else element ∷ lua.ref_value (lua.heap l) r.table_ref ∷ lua.stack l

  module _ (table : lua.type_of (lua.ref_value (lua.heap l) r.table_ref) ≡ table_type) where
    popped : lua.stack (lua.pop 2 (index_key lua r key l)) ≡ lua.stack l
    popped =
        lua.stack-pop 2 (index_key lua r key l) (omega (arith, ap length (index_key_lem table)))
        ∙ ap (drop 2) (index_key_lem table)

    at_element : at_place {S = TableReader × L} lua 0 (index_key lua r key l) ≡ done element
    at_element =
        at_top {S = TableReader × L} lua element _ (index_key lua r key l) (index_key_lem table)

    pop_two :
        pop_values {S = TableReader × L} lua 2 (index_key lua r key l)
        ≡ done (lua.pop 2 (index_key lua r key l))
    pop_two =
        pop_values_lem {S = TableReader × L} lua 2 (index_key lua r key l)
          (omega (arith, ap length (index_key_lem table)))

    -- Where the reader refers to a table, `GetString` of a key returns the element under the key
    -- if it is a string and leaves the stack as it was, and else returns the empty string and
    -- leaves the table and the element on the stack.
    pub get_string_key :
        (l' : L) × (get_string lua r (some key) l
          ≡ done (if is_string (lua.type_of element) then lua.bytes element else [], l'))
        × (lua.stack l' ≡ left (is_string (lua.type_of element)))
    unfolding get_string
    get_string_key = elim (Bool-cases (is_string (lua.type_of element))) [
      | inl e ↦ (
        lua.pop 2 (index_key lua r key l),
        rw (
          get_string,
          at_element,
          e,
          string_at_top_lem {S = TableReader × L} lua element _ (index_key lua r key l)
              (index_key_lem table) (is_string-true _ e),
          pop_two,
        ),
        rw e popped,
      )
      | inr e ↦ (index_key lua r key l, rw (get_string, at_element, e), rw e (index_key_lem table))
    ]

    get_int_key :
        (l' : L) × (get_int lua r (some key) l
          ≡ done
              (if is_number (lua.type_of element) then lua.to_integer element else minus_one, l'))
        × (lua.stack l' ≡ left (is_number (lua.type_of element)))
    unfolding get_int
    get_int_key = elim (Bool-cases (is_number (lua.type_of element))) [
      | inl e ↦
          (lua.pop 2 (index_key lua r key l), rw (get_int, at_element, e, pop_two), rw e popped)
      | inr e ↦ (index_key lua r key l, rw (get_int, at_element, e), rw e (index_key_lem table))
    ]

    get_number_key :
        (l' : L) × (get_number lua r (some key) l
          ≡ done (
            if is_number (lua.type_of element) then lua.to_number element else lua.number_minus_one,
            l',
          ))
        × (lua.stack l' ≡ left (is_number (lua.type_of element)))
    unfolding get_number
    get_number_key = elim (Bool-cases (is_number (lua.type_of element))) [
      | inl e ↦
          (lua.pop 2 (index_key lua r key l), rw (get_number, at_element, e, pop_two), rw e popped)
      | inr e ↦ (index_key lua r key l, rw (get_number, at_element, e), rw e (index_key_lem table))
    ]

    get_bool_key :
        (l' : L) × (get_bool lua r (some key) l
          ≡ done (
            if is_boolean (lua.type_of element)
                then (if lua.to_boolean element then 1 else 0)
                else minus_one,
            l',
          ))
        × (lua.stack l' ≡ left (is_boolean (lua.type_of element)))
    unfolding get_bool
    get_bool_key = elim (Bool-cases (is_boolean (lua.type_of element))) [
      | inl e ↦
          (lua.pop 2 (index_key lua r key l), rw (get_bool, at_element, e, pop_two), rw e popped)
      | inr e ↦ (index_key lua r key l, rw (get_bool, at_element, e), rw e (index_key_lem table))
    ]

    get_table_key :
        is_table (lua.type_of element) ≡ false
        → get_table lua r (some key) l ≡ threw null_state (init_reader, index_key lua r key l)
    unfolding get_table setup
    get_table_key e = rw (get_table, at_element, e)
