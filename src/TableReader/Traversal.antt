-- ===== src/TableReader/Traversal.antt =====
-- The loop `while (reader.NextElement())` over a table.
use h1z1_server.Base.{
  ℕ, zero, suc, ◌+◌, ◌^◌, ◌<◌, ◌≡◌, sym, ◌∙◌, ap, ap₂, subst, Bool, true, false, Option, none, some,
  List, [], ◌∷◌, length, arith, Outcome, done, threw, fault, ◌>>=◌, minus_one,
}
use h1z1_server.Lua.{Lua, table_type}
use h1z1_server.Lua.Access.{at_place, at_top, at_second, stack-pop_one, heap-pop_one}
use h1z1_server.TableReader.Rounds.{
  Enumerates, next_element-later, prepared, prepared_lem, next_element-first,
}
use h1z1_server.TableReader.{TableReader, next_element}

module _ {V H L D : Type 0} (lua : Lua V H L D) where
  -- The loop, collecting the keys and the elements; `none` when more than `n` rounds are needed.
  unfoldable pub traverse :
      ℕ → TableReader → L → Option (Outcome (TableReader × L) (List (V × V) × (TableReader × L)))
  traverse zero r l = none
  traverse (suc n) r l = elim (next_element lua r l) [
    | fault ↦ some fault
    | threw e s ↦ some (threw e s)
    | done (more, (r', l')) ↦ elim more [
      | false ↦ some (done ([], (r', l')))
      | true ↦ elim (traverse n r' l') [
        | none ↦ none
        | some rest ↦
            some (do
              k ← at_place lua 1 l'
              v ← at_place lua 0 l'
              es ← rest
              done ((k, v) ∷ es.0, es.1))
      ]
    ]
  ]

  -- A round of the loop, from what `NextElement` returns.
  traverse-end :
      (n : ℕ) (r r' : TableReader) (l l' : L)
      → next_element lua r l ≡ done (false, (r', l'))
      → traverse (suc n) r l ≡ some (done ([], (r', l')))
  unfolding traverse
  traverse-end n r r' l l' e = rw (traverse, e)

  traverse-step :
      (n : ℕ) (r r' r'' : TableReader) (l l' l'' : L) (v k : V) (vs : List V) (es : List (V × V))
      → next_element lua r l ≡ done (true, (r', l'))
      → lua.stack l' ≡ v ∷ k ∷ vs
      → traverse n r' l' ≡ some (done (es, (r'', l'')))
      → traverse (suc n) r l ≡ some (done ((k, v) ∷ es, (r'', l'')))
  unfolding traverse
  traverse-step n r r' r'' l l' l'' v k vs es e on rest = rw (
    traverse,
    e,
    rest,
    at_second {S = TableReader × L} lua v k vs l' on,
    at_top {S = TableReader × L} lua v (k ∷ vs) l' on,
  )

  -- The rest of the loop, from an element on the stack on.
  traverse-rest :
      (n : ℕ) (r : TableReader) (l : L) (v k t : V) (vs : List V) (es : List (V × V))
      → lua.stack l ≡ v ∷ k ∷ t ∷ vs
      → lua.type_of t ≡ table_type
      → Enumerates lua (lua.heap l) t k es
      → length es < n
      → r.current_idx + length es < 2 ^ 31
      → (l' : L) × (traverse n r l
          ≡ some (done (es, (record r { current_idx = r.current_idx + 1 + length es }, l'))))
        × (lua.stack l' ≡ t ∷ vs)
        × (lua.heap l' ≡ lua.heap l)
  traverse-rest zero r l v k t vs es e table chain enough small = absurd (omega arith)
  traverse-rest (suc n) r l v k t vs [] e table chain enough small =
      let l1 = lua.pop 1 l in
      let on = stack-pop_one lua l v (k ∷ t ∷ vs) e in
      let last =
        lua.next-last l1 k t vs on table
          (ap (λ h. lua.following h t k) (heap-pop_one lua l v (k ∷ t ∷ vs) e) ∙ chain) in
      (
        (lua.next l1).1,
        traverse-end n r (record r { current_idx = r.current_idx + 1 + 0 }) l (lua.next l1).1
            (next_element-later lua r l v (k ∷ t ∷ vs) (omega (arith, small)) e
              ∙ ap₂
                  (λ (b : Bool) (i : ℕ). done (b, (record r { current_idx = i }, (lua.next l1).1)))
                  last.0 (omega arith)),
        last.1,
        lua.heap-next l1 ∙ heap-pop_one lua l v (k ∷ t ∷ vs) e,
      )
  traverse-rest (suc n) r l v k t vs (f ∷ es) e table chain enough small =
      let l1 = lua.pop 1 l in
      let on = stack-pop_one lua l v (k ∷ t ∷ vs) e in
      let kept = heap-pop_one lua l v (k ∷ t ∷ vs) e in
      let more =
        lua.next-more l1 k t vs f on table (ap (λ h. lua.following h t k) kept ∙ chain.0) in
      let same = lua.heap-next l1 ∙ kept in
      let rest =
        traverse-rest n (record r { current_idx = r.current_idx + 1 }) (lua.next l1).1 f.1 f.0 t vs
          es more.1 table (subst (λ h. Enumerates lua h t f.0 es) (sym same) chain.1)
          (omega (arith, enough)) (omega (arith, small)) in
      (
        rest.0,
        traverse-step n r (record r { current_idx = r.current_idx + 1 }) _ l (lua.next l1).1 rest.0
              f.1 f.0 (t ∷ vs) es
              (next_element-later lua r l v (k ∷ t ∷ vs) (omega (arith, small)) e
                ∙ ap
                    (λ (b : Bool).
                      done (b, (record r { current_idx = r.current_idx + 1 }, (lua.next l1).1)))
                    more.0)
              more.1 rest.1
            ∙ ap (λ (i : ℕ). some (done (f ∷ es, (record r { current_idx = i }, rest.0))))
                (omega arith),
        rest.2,
        rest.3 ∙ same,
      )

  -- From the start of a table that the reader refers to, whose entries the interpreter
  -- enumerates from nil on, the loop over `NextElement` visits exactly these entries in their
  -- order and ends, where they are fewer than the rounds allowed and than 2 ^ 31; the index is
  -- then their number, and the table stands on the stack above what was there.
  pub traverse-Enumerates :
      (n : ℕ) (r : TableReader) (l : L) (t : V) (es : List (V × V))
      → lua.ref_value (lua.heap l) r.table_ref ≡ t
      → lua.type_of t ≡ table_type
      → r.current_idx ≡ minus_one
      → Enumerates lua (lua.heap l) t lua.nil es
      → length es < n
      → length es < 2 ^ 31
      → (l' : L) × (traverse n r l ≡ some (done (es, (record r { current_idx = length es }, l'))))
        × (lua.stack l' ≡ t ∷ lua.stack l)
        × (lua.heap l' ≡ lua.heap l)
  traverse-Enumerates zero r l t es known table first chain enough small = absurd (omega arith)
  traverse-Enumerates (suc n) r l t [] known table first chain enough small =
      let on = (prepared_lem lua r l).0 ∙ ap (λ v. lua.nil ∷ v ∷ lua.stack l) known in
      let last =
        lua.next-last (prepared lua r l) lua.nil t (lua.stack l) on table
          (ap (λ h. lua.following h t lua.nil) (prepared_lem lua r l).1 ∙ chain) in
      (
        (lua.next (prepared lua r l)).1,
        traverse-end n r (record r { current_idx = 0 }) l (lua.next (prepared lua r l)).1
            (next_element-first lua r l first
              ∙ ap
                  (λ (b : Bool).
                    done (b, (record r { current_idx = 0 }, (lua.next (prepared lua r l)).1)))
                  last.0),
        last.1,
        lua.heap-next (prepared lua r l) ∙ (prepared_lem lua r l).1,
      )
  traverse-Enumerates (suc n) r l t (f ∷ es) known table first chain enough small =
      let on = (prepared_lem lua r l).0 ∙ ap (λ v. lua.nil ∷ v ∷ lua.stack l) known in
      let more =
        lua.next-more (prepared lua r l) lua.nil t (lua.stack l) f on table
          (ap (λ h. lua.following h t lua.nil) (prepared_lem lua r l).1 ∙ chain.0) in
      let same = lua.heap-next (prepared lua r l) ∙ (prepared_lem lua r l).1 in
      let rest =
        traverse-rest n (record r { current_idx = 0 }) (lua.next (prepared lua r l)).1 f.1 f.0 t
          (lua.stack l) es more.1 table (subst (λ h. Enumerates lua h t f.0 es) (sym same) chain.1)
          (omega (arith, enough)) (omega (arith, small)) in
      (
        rest.0,
        traverse-step n r (record r { current_idx = 0 }) _ l (lua.next (prepared lua r l)).1 rest.0
              f.1 f.0 (t ∷ lua.stack l) es
              (next_element-first lua r l first
                ∙ ap
                    (λ (b : Bool).
                      done (b, (record r { current_idx = 0 }, (lua.next (prepared lua r l)).1)))
                    more.0)
              more.1 rest.1
            ∙ ap (λ (i : ℕ). some (done (f ∷ es, (record r { current_idx = i }, rest.0))))
                (omega arith),
        rest.2,
        rest.3 ∙ same,
      )
