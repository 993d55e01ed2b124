-- ===== src/TableReader/Rounds.antt =====
-- What `NextElement` does, at the start of a table and further on.
use h1z1_server.Base.{
  ℕ, ◌+◌, ◌<◌, ◌≡◌, ◌∙◌, ap, true, false, none, some, List, [], ◌∷◌, length, arith, done, minus_one,
  ◌==◌,
}
use h1z1_server.Lua.{Lua}
use h1z1_server.Lua.Access.{stack-pop_one, heap-pop_one, pop_values_lem}
use h1z1_server.TableReader.{TableReader, next_element}

module _ {V H L D : Type 0} (lua : Lua V H L D) where
  -- The entries of a table that follow a key, all of them.
  abbrev pub Enumerates : H → V → V → List (V × V) → Type 0
  Enumerates h t k [] = lua.following h t k ≡ none
  Enumerates h t k (e ∷ es) = (lua.following h t k ≡ some e) × Enumerates h t e.0 es

  -- A round that is not the first.
  pub next_element-later :
      (r : TableReader) (l : L) (v : V) (vs : List V)
      → r.current_idx < minus_one
      → lua.stack l ≡ v ∷ vs
      → next_element lua r l
        ≡ done (
          (lua.next (lua.pop 1 l)).0,
          (record r { current_idx = r.current_idx + 1 }, (lua.next (lua.pop 1 l)).1),
        )
  unfolding next_element
  next_element-later r l v vs i e =
      rw
        (
          next_element,
          not_first,
          pop_values_lem {S = TableReader × L} lua 1 l (omega (arith, ap length e)),
        )
        (ap
          (λ (k : ℕ). done (
            (lua.next (lua.pop 1 l)).0,
            (record r { current_idx = k }, (lua.next (lua.pop 1 l)).1),
          ))
          (omega arith))
    where
      not_first : (r.current_idx == minus_one) ≡ false
      not_first = ground arith

  -- The state in which the first `lua_next` is called.
  unfoldable pub prepared : TableReader → L → L
  prepared r l = lua.push lua.nil (lua.push (lua.ref_value (lua.heap l) r.table_ref) l)

  pub prepared_lem :
      (r : TableReader) (l : L)
      → (lua.stack (prepared r l) ≡ lua.nil ∷ lua.ref_value (lua.heap l) r.table_ref ∷ lua.stack l)
        × (lua.heap (prepared r l) ≡ lua.heap l)
  unfolding prepared
  prepared_lem r l = (
    lua.stack-push lua.nil (lua.push (lua.ref_value (lua.heap l) r.table_ref) l)
        ∙ ap (◌∷◌ lua.nil) (lua.stack-push (lua.ref_value (lua.heap l) r.table_ref) l),
    lua.heap-push lua.nil (lua.push (lua.ref_value (lua.heap l) r.table_ref) l)
        ∙ lua.heap-push (lua.ref_value (lua.heap l) r.table_ref) l,
  )

  pub next_element-first :
      (r : TableReader) (l : L)
      → r.current_idx ≡ minus_one
      → next_element lua r l
        ≡ done (
          (lua.next (prepared r l)).0,
          (record r { current_idx = 0 }, (lua.next (prepared r l)).1),
        )
  unfolding prepared next_element
  next_element-first r l first = rw (next_element, at_start)
    where
      at_start : (r.current_idx == minus_one) ≡ true
      at_start = ground (arith, first)

  -- A state in which `NextElement` looks for the entry behind the key `k`, and makes the index `i`.
  pub record Place (r : TableReader) (l : L) (t k : V) (vs : List V) (i : ℕ) : Type 0 where
    pub call : L
    pub moves :
        next_element lua r l
        ≡ done ((lua.next call).0, (record r { current_idx = i }, (lua.next call).1))
    pub on : lua.stack call ≡ k ∷ t ∷ vs
    pub same : lua.heap call ≡ lua.heap l

  pub first-Place :
      (r : TableReader) (l : L) (t : V)
      → lua.ref_value (lua.heap l) r.table_ref ≡ t
      → r.current_idx ≡ minus_one
      → Place r l t lua.nil (lua.stack l) 0
  first-Place r l t known first = record {
    call = prepared r l;
    moves = next_element-first r l first;
    on = (prepared_lem r l).0 ∙ ap (λ v. lua.nil ∷ v ∷ lua.stack l) known;
    same = (prepared_lem r l).1;
  }

  pub later-Place :
      (r : TableReader) (l : L) (v k t : V) (vs : List V)
      → lua.stack l ≡ v ∷ k ∷ t ∷ vs
      → r.current_idx < minus_one
      → Place r l t k vs (r.current_idx + 1)
  later-Place r l v k t vs e small = record {
    call = lua.pop 1 l;
    moves = next_element-later r l v (k ∷ t ∷ vs) small e;
    on = stack-pop_one lua l v (k ∷ t ∷ vs) e;
    same = heap-pop_one lua l v (k ∷ t ∷ vs) e;
  }
