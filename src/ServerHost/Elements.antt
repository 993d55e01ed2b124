-- ===== src/ServerHost/Elements.antt =====
-- The loop `while (reader.NextElement())` of ServerHost/main.cpp, whose body may go on, leave the
-- loop, or close the interpreter, delete it and leave the loop.
use h1z1_server.Base.{
  ℕ, zero, suc, ◌+◌, ◌^◌, ◌<◌, ◌≡◌, refl, sym, ◌∙◌, ap, subst, true, false, Option, none, some,
  List, [], ◌∷◌, ◌++◌, length, arith, Outcome, done, threw, fault, minus_one,
}
use h1z1_server.Lua.{Lua, table_type}
use h1z1_server.TableReader.{TableReader, next_element}
use h1z1_server.TableReader.Rounds.{Enumerates, Place, first-Place, later-Place}

pub data Step (A : Type 0) : Type 0 where
  goes_on leaves shuts : A → Step A

module _ {V H L D A : Type 0} (lua : Lua V H L D) where
  -- `none` when more than `n` rounds are needed.
  unfoldable pub while_elements :
      (A → L → Outcome (TableReader × L) (Step A × L))
      → ℕ
      → TableReader
      → A
      → L
      → Option (Outcome (TableReader × L) (Step A × (TableReader × L)))
  while_elements body zero r a l = none
  while_elements body (suc n) r a l = elim (next_element lua r l) [
    | fault ↦ some fault
    | threw e s ↦ some (threw e s)
    | done (more, (r', l')) ↦ elim more [
      | false ↦ some (done (goes_on a, (r', l')))
      | true ↦ elim (body a l') [
        | fault ↦ some fault
        | threw e s ↦ some (threw e s)
        | done (step, l'') ↦ elim step [
          | goes_on b ↦ while_elements body n r' b l''
          | leaves b ↦ some (done (leaves b, (r', l'')))
          | shuts b ↦ some (done (shuts b, (r', l'')))
        ]
      ]
    ]
  ]

-- The loop as a fold over the entries of a table.
abbrev pub then_step : {A : Type 0} → Step A → (A → Step A) → Step A
then_step (goes_on a) f = f a
then_step (leaves a) f = leaves a
then_step (shuts a) f = shuts a

abbrev pub fold_entries : {V A : Type 0} → (A → V → V → Step A) → A → List (V × V) → Step A
fold_entries spec a [] = goes_on a
fold_entries spec a (e ∷ es) = then_step (spec a e.0 e.1) (λ b. fold_entries spec b es)

module _ {V H L D A : Type 0} (lua : Lua V H L D) where
  -- A body that does to the key and the element on top of the stack what `spec` says.
  abbrev pub Follows :
      (A → L → Outcome (TableReader × L) (Step A × L)) → (A → V → V → Step A) → Type 0
  Follows body spec =
      (a : A) (l : L) (v k : V) (vs : List V)
      → lua.stack l ≡ v ∷ k ∷ vs
      → body a l ≡ done (spec a k v, l)

  -- The loop's result is the fold's, with the table and what was below it still on the stack.
  pub record Finished (step : Step A) (r : TableReader) (t : V) (vs : List V)
      (result : Option (Outcome (TableReader × L) (Step A × (TableReader × L)))) : Type 0 where
    pub reader : TableReader
    pub out : L
    pub above : List V
    pub returns : result ≡ some (done (step, (reader, out)))
    pub same_bound : reader.bound ≡ r.bound
    pub same_ref : reader.table_ref ≡ r.table_ref
    pub left : lua.stack out ≡ above ++ t ∷ vs

  module _ (body : A → L → Outcome (TableReader × L) (Step A × L)) (spec : A → V → V → Step A)
      (follows : Follows body spec) where
    while-last :
        (n : ℕ) (r : TableReader) (a : A) (l : L) (t k : V) (vs : List V) (i : ℕ)
        → Place lua r l t k vs i
        → lua.type_of t ≡ table_type
        → lua.following (lua.heap l) t k ≡ none
        → Finished (goes_on a) r t vs (while_elements lua body (suc n) r a l)
    unfolding while_elements
    while-last n r a l t k vs i p table last =
        let e =
          lua.next-last p.call k t vs p.on table (ap (λ h. lua.following h t k) p.same ∙ last) in
        record {
          reader = record r { current_idx = i };
          out = (lua.next p.call).1;
          above = [];
          returns = rw (while_elements, p.moves, e.0);
          same_bound = refl;
          same_ref = refl;
          left = e.1;
        }

    -- A round, by what the body does to the entry.
    while-round :
        (n : ℕ) (r : TableReader) (a : A) (l : L) (t k : V) (vs : List V) (i : ℕ) (f : V × V)
        (step : Step A)
        → (p : Place lua r l t k vs i) → lua.type_of t ≡ table_type
        → lua.following (lua.heap l) t k ≡ some f
        → spec a f.0 f.1 ≡ step
        → (rest : A → Step A)
        → ((b : A)
            → step ≡ goes_on b
            → Finished
                (rest b)
                (record r { current_idx = i })
                t
                vs
                (while_elements lua body n (record r { current_idx = i }) b (lua.next p.call).1))
        → Finished (then_step step rest) r t vs (while_elements lua body (suc n) r a l)
    unfolding while_elements
    while-round n r a l t k vs i f step p table some_entry does rest go =
        let more =
          lua.next-more p.call k t vs f p.on table
            (ap (λ h. lua.following h t k) p.same ∙ some_entry) in
        after step does go more.0 more.1 (
          follows a (lua.next p.call).1 f.1 f.0 (t ∷ vs) more.1
          ∙ ap (λ s. done (s, (lua.next p.call).1)) does)
      where
        after :
            (step : Step A)
            → spec a f.0 f.1 ≡ step
            → ((b : A)
                → step ≡ goes_on b
                → Finished
                    (rest b)
                    (record r { current_idx = i })
                    t
                    vs
                    (while_elements lua body n
                      (record r { current_idx = i })
                      b
                      (lua.next p.call).1))
            → (lua.next p.call).0 ≡ true
            → lua.stack (lua.next p.call).1 ≡ f.1 ∷ f.0 ∷ t ∷ vs
            → body a (lua.next p.call).1 ≡ done (step, (lua.next p.call).1)
            → Finished (then_step step rest) r t vs (while_elements lua body (suc n) r a l)
        after (goes_on b) does go is_more on ran =
            let end = go b refl in
            record {
              reader = end.reader;
              out = end.out;
              above = end.above;
              returns = rw (while_elements, p.moves, is_more, ran) end.returns;
              same_bound = end.same_bound;
              same_ref = end.same_ref;
              left = end.left;
            }
        after (leaves b) does go is_more on ran = record {
          reader = record r { current_idx = i };
          out = (lua.next p.call).1;
          above = f.1 ∷ f.0 ∷ [];
          returns = rw (while_elements, p.moves, is_more, ran);
          same_bound = refl;
          same_ref = refl;
          left = on;
        }
        after (shuts b) does go is_more on ran = record {
          reader = record r { current_idx = i };
          out = (lua.next p.call).1;
          above = f.1 ∷ f.0 ∷ [];
          returns = rw (while_elements, p.moves, is_more, ran);
          same_bound = refl;
          same_ref = refl;
          left = on;
        }

    while-Finished :
        (n : ℕ) (r : TableReader) (a : A) (l : L) (t k : V) (vs : List V) (i : ℕ)
        (es : List (V × V))
        → Place lua r l t k vs i
        → lua.type_of t ≡ table_type
        → Enumerates lua (lua.heap l) t k es
        → length es < n
        → i + length es < 2 ^ 31
        → Finished (fold_entries spec a es) r t vs (while_elements lua body n r a l)
    while-Finished zero r a l t k vs i es p table chain enough small = absurd (omega arith)
    while-Finished (suc n) r a l t k vs i [] p table chain enough small =
        while-last n r a l t k vs i p table chain
    while-Finished (suc n) r a l t k vs i (f ∷ es) p table chain enough small =
        let more =
          lua.next-more p.call k t vs f p.on table
            (ap (λ h. lua.following h t k) p.same ∙ chain.0) in
        while-round n r a l t k vs i f (spec a f.0 f.1) p table chain.0 refl
          (λ b. fold_entries spec b es)
          (λ b e.
            while-Finished n (record r { current_idx = i }) b (lua.next p.call).1 t f.0 vs (i + 1)
              es
              (later-Place lua (record r { current_idx = i }) (lua.next p.call).1 f.1 f.0 t vs
                more.1 (omega (arith, small)))
              table
              (subst (λ h. Enumerates lua h t f.0 es) (sym (lua.heap-next p.call ∙ p.same)) chain.1)
              (omega (arith, enough)) (omega (arith, small)))

    pub while_elements-Finished :
        (n : ℕ) (r : TableReader) (a : A) (l : L) (t : V) (es : List (V × V))
        → lua.ref_value (lua.heap l) r.table_ref ≡ t
        → lua.type_of t ≡ table_type
        → r.current_idx ≡ minus_one
        → Enumerates lua (lua.heap l) t lua.nil es
        → length es < n
        → length es < 2 ^ 31
        → Finished (fold_entries spec a es) r t (lua.stack l) (while_elements lua body n r a l)
    while_elements-Finished n r a l t es known table first chain enough small =
        while-Finished n r a l t lua.nil (lua.stack l) 0 es (first-Place lua r l t known first)
          table chain enough (omega (arith, small))
