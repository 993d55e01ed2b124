-- ===== src/TableReader/Closing.antt =====
-- `Setup`, the loop over the table, and `Close` behind it.
use h1z1_server.Base.{
  Bool-cases, inl, inr, ℕ, ◌^◌, ◌<◌, ◌≡◌, refl, ◌∙◌, ap, true, false, some, List, ◌∷◌, length, drop,
  arith, done, minus_one, ◌==◌, if◌then◌else◌,
}
use h1z1_server.Lua.{Lua, table_type}
use h1z1_server.Lua.Access.{at_top, pop_values_lem}
use h1z1_server.TableReader.{TableReader, setup, close}
use h1z1_server.TableReader.Rounds.{Enumerates}
use h1z1_server.TableReader.Traversal.{traverse, traverse-Enumerates}

module _ {V H L D : Type 0} (lua : Lua V H L D) where
  -- `Close` behind the loop.
  pub close-end :
      (r : TableReader) (l : L) (t w : V) (ws : List V)
      → r.bound ≡ true
      → 0 < r.table_ref
      → lua.stack l ≡ t ∷ w ∷ ws
      → (l' : L) × (close lua r l ≡ done (record r { bound = false; table_ref = minus_one }, l'))
        × (lua.stack l' ≡ (if r.current_idx == 0 then t ∷ w ∷ ws else ws))
  unfolding close
  close-end r l t w ws bound pos e = elim (Bool-cases (r.current_idx == 0)) [
    | inl at_start ↦ (
      lua.unref r.table_ref l,
      rw (close, bound, referred, at_start),
      rw at_start (lua.stack-unref r.table_ref l ∙ e),
    )
    | inr later ↦ (
      lua.unref r.table_ref (lua.pop 2 l),
      rw (
        close,
        bound,
        referred,
        later,
        pop_values_lem {S = TableReader × L} lua 2 l (omega (arith, ap length e)),
      ),
      rw later (
          lua.stack-unref r.table_ref (lua.pop 2 l)
          ∙ lua.stack-pop 2 l (omega (arith, ap length e))
          ∙ ap (drop 2) e),
    )
  ]
    where
      referred : (r.table_ref == 0) ≡ false
      referred = ground (arith, pos)

  -- `Setup` for the table on top of the stack.
  pub setup_lem :
      (r : TableReader) (l : L) (t : V) (ws : List V)
      → lua.stack l ≡ t ∷ ws
      → lua.type_of t ≡ table_type
      → (setup lua true r 0 l
          ≡ done (
            record {
              bound = true;
              table_ref = (lua.ref (lua.push t l)).0;
              current_idx = minus_one;
            },
            (lua.ref (lua.push t l)).1,
          ))
        × (lua.stack (lua.ref (lua.push t l)).1 ≡ t ∷ ws)
        × (lua.ref_value (lua.heap (lua.ref (lua.push t l)).1) (lua.ref (lua.push t l)).0 ≡ t)
  unfolding setup
  setup_lem r l t ws e table = (
    rw (setup, at_top {S = TableReader × L} lua t ws l e, table),
    lua.stack-ref t (lua.push t l) (t ∷ ws) (lua.stack-push t l ∙ ap (◌∷◌ t) e),
    lua.ref_value-ref t (lua.push t l) (t ∷ ws) (lua.stack-push t l ∙ ap (◌∷◌ t) e),
  )

  -- For a table on top of the stack, whose entries the interpreter enumerates from nil on, fewer
  -- than 2 ^ 31 and than the rounds allowed, where the registry gives a positive reference:
  -- `Setup`, the loop over `NextElement` and `Close` return, and afterwards the table itself is
  -- off the stack as well, but if it is empty it stands there twice.
  pub setup-traverse-close :
      (r₀ : TableReader) (l : L) (t : V) (ws : List V) (es : List (V × V)) (n : ℕ)
      → lua.stack l ≡ t ∷ ws
      → lua.type_of t ≡ table_type
      → 0 < (lua.ref (lua.push t l)).0
      → Enumerates lua (lua.heap (lua.ref (lua.push t l)).1) t lua.nil es
      → length es < n
      → length es < 2 ^ 31
      → (r r' r'' : TableReader) × (l1 l2 l3 : L) × (setup lua true r₀ 0 l ≡ done (r, l1))
        × (traverse lua n r l1 ≡ some (done (es, (r', l2))))
        × (close lua r' l2 ≡ done (r'', l3))
        × (lua.stack l3 ≡ (if length es == 0 then t ∷ t ∷ ws else ws))
  setup-traverse-close r₀ l t ws es n e table pos chain enough small =
      let s = setup_lem r₀ l t ws e table in
      let r : TableReader = record {
        bound = true;
        table_ref = (lua.ref (lua.push t l)).0;
        current_idx = minus_one;
      } in
      let run =
        traverse-Enumerates lua n r (lua.ref (lua.push t l)).1 t es s.2 table refl chain enough
          small in
      let end =
        close-end (record r { current_idx = length es }) run.0 t t ws refl pos
          (run.2 ∙ ap (◌∷◌ t) s.1) in
      (
        r,
        record r { current_idx = length es },
        _,
        (lua.ref (lua.push t l)).1,
        run.0,
        end.0,
        s.0,
        run.1,
        end.1,
        end.2,
      )
