-- ===== src/ServerHost/Reading.antt =====
-- Whole tables read by the host.
use h1z1_server.Base.{
  ℕ, ◌^◌, ◌<◌, ◌≡◌, refl, sym, ap, ◌∙◌, Bool, true, false, Option, none, some, List, [], ◌∷◌, ◌++◌,
  if◌then◌else◌, Outcome, done, fault, length, ◌==◌, minus_one, subst, ◌>>=◌,
}
use mathlib.Core.List.{append_assoc}
use h1z1_server.Lua.{Lua, table_type}
use h1z1_server.TableReader.{TableReader, init_reader, close, setup}
use h1z1_server.TableReader.Rounds.{Enumerates}
use h1z1_server.TableReader.Closing.{close-end, setup_lem}
use h1z1_server.LuaManager.{LuaManager, clear_stack}
use h1z1_server.LuaManager.Execution.{clear_stack-append}
use h1z1_server.ServerHost.Elements.{
  Step, goes_on, leaves, shuts, while_elements, Follows, fold_entries, Finished,
  while_elements-Finished,
}
use h1z1_server.ServerHost.Configuration.{
  LuaServerData, read_table, info_body, config_body, read_config, read_info, empty_data,
  with_default,
}
use h1z1_server.Lua.Access.{at_top}
use h1z1_server.ServerHost.Entries.{
  config_entry, config_body-Follows, info_entry, info_body-Follows,
}

-- Two values that stand over others, among more.
two_on_top :
    {A : Type 0} (above : List A) (t : A) (ws : List A)
    → (x y : A) × (ys : List A) × (above ++ t ∷ t ∷ ws ≡ x ∷ y ∷ (ys ++ ws))
two_on_top [] t ws = (t, t, [], refl)
two_on_top (x ∷ []) t ws = (x, t, t ∷ [], refl)
two_on_top (x ∷ y ∷ above) t ws =
    (x, y, above ++ t ∷ t ∷ [], ap (λ ys. x ∷ y ∷ ys) (sym (append_assoc above (t ∷ t ∷ []) ws)))

-- A step with the default configuration file.
abbrev pub named : Step LuaServerData → Step LuaServerData
named (goes_on info) = goes_on (with_default info)
named (leaves info) = leaves (with_default info)
named (shuts info) = shuts info

module _ {V H L D : Type 0} (lua : Lua V H L D) where
  -- How the reading of a table ends: a table whose entries close the interpreter is a fault, and
  -- any other gives its data and takes everything off the stack.
  abbrev pub Ended : Step LuaServerData → List V → Option (Outcome L (LuaServerData × L)) → Type 0
  Ended (shuts info) ws result = result ≡ some fault
  Ended (leaves info) ws result = (l : L) × (result ≡ some (done (info, l))) × (lua.stack l ≡ ws)
  Ended (goes_on info) ws result = (l : L) × (result ≡ some (done (info, l))) × (lua.stack l ≡ ws)

  -- `Close` and `ClearStack` where the table stands twice below what the loop has left.
  close-clear_stack :
      (m : LuaManager) (r : TableReader) (l : L) (above : List V) (t : V) (ws : List V)
      → r.bound ≡ true
      → 0 < r.table_ref
      → m.stack_count ≡ length ws
      → lua.stack l ≡ above ++ t ∷ t ∷ ws
      → (r' : TableReader) × (l' : L) × (close lua r l ≡ done (r', l'))
        × (lua.stack (clear_stack lua m l') ≡ ws)
  close-clear_stack m r l above t ws bound pos count e =
      let (x, y, ys, f) = two_on_top above t ws in
      let (l', closed, left) = close-end lua r l x y (ys ++ ws) bound pos (e ∙ f) in
      let rest : (zs : List V) × (lua.stack l' ≡ zs ++ ws) =
        remains (r.current_idx == 0) x y ys (lua.stack l') left in
      (_, l', closed, clear_stack-append lua m l' rest.0 ws count rest.1)
    where
      remains :
          (b : Bool) (x y : V) (ys us : List V)
          → us ≡ (if b then x ∷ y ∷ (ys ++ ws) else ys ++ ws)
          → (zs : List V) × (us ≡ zs ++ ws)
      remains true x y ys us e = (x ∷ y ∷ ys, e)
      remains false x y ys us e = (ys, e)

  module _ (body : LuaServerData → L → Outcome (TableReader × L) (Step LuaServerData × L))
      (spec : LuaServerData → V → V → Step LuaServerData) (follows : Follows lua body spec) where
    read_table-Ended :
        (n : ℕ) (m : LuaManager) (info : LuaServerData) (l : L) (t : V) (ws : List V)
        (es : List (V × V))
        → lua.stack l ≡ t ∷ ws
        → lua.type_of t ≡ table_type
        → 0 < (lua.ref (lua.push t l)).0
        → Enumerates lua (lua.heap (lua.ref (lua.push t l)).1) t lua.nil es
        → length es < n
        → length es < 2 ^ 31
        → m.stack_count ≡ length ws
        → Ended (fold_entries spec info es) ws (read_table lua body n m info l)
    unfolding read_table
    read_table-Ended n m info l t ws es e table pos chain enough small count =
        let s = setup_lem lua init_reader l t ws e table in
        let r : TableReader = record {
          bound = true;
          table_ref = (lua.ref (lua.push t l)).0;
          current_idx = minus_one;
        } in
        ends (fold_entries spec info es) r (lua.ref (lua.push t l)).1 s.0 s.1 refl pos (
          while_elements-Finished lua body spec follows n r info (lua.ref (lua.push t l)).1 t es s.2
            table refl chain enough small)
      where
        ends :
            (step : Step LuaServerData) (r : TableReader) (l1 : L)
            → setup lua true init_reader 0 l ≡ done (r, l1)
            → lua.stack l1 ≡ t ∷ ws
            → r.bound ≡ true
            → 0 < r.table_ref
            → Finished lua step r t (lua.stack l1) (while_elements lua body n r info l1)
            → Ended step ws (read_table lua body n m info l)
        ends (shuts info') r l1 s on bound pos f = rw (read_table, s, f.returns)
        ends (leaves info') r l1 s on bound pos f =
            let (r', l', closed, left) =
              close-clear_stack m f.reader f.out f.above t ws (f.same_bound ∙ bound)
                (subst (λ (i : ℕ). 0 < i) (sym f.same_ref) pos) count
                (f.left ∙ ap (λ us. f.above ++ t ∷ us) on) in
            (clear_stack lua m l', rw (read_table, s, f.returns, closed), left)
        ends (goes_on info') r l1 s on bound pos f =
            let (r', l', closed, left) =
              close-clear_stack m f.reader f.out f.above t ws (f.same_bound ∙ bound)
                (subst (λ (i : ℕ). 0 < i) (sym f.same_ref) pos) count
                (f.left ∙ ap (λ us. f.above ++ t ∷ us) on) in
            (clear_stack lua m l', rw (read_table, s, f.returns, closed), left)

  -- Reading a server's configuration from a table on top of the stack, whose entries the
  -- interpreter enumerates from nil on, fewer than 2 ^ 31 and than the rounds allowed, where the
  -- registry gives a positive reference and the values below the table are as many as the
  -- manager remembers, is the fold of what one entry does over the entries in their order, until
  -- one ends it: an entry with another key leaves the loop, a name or a host that is a string
  -- and a port that is a number are taken, and where the data are returned everything is off the
  -- stack; an entry of the wrong type ends in the use of the deleted interpreter.
  pub read_config-Ended :
      (n : ℕ) (m : LuaManager) (info : LuaServerData) (l : L) (t : V) (ws : List V)
      (es : List (V × V))
      → lua.stack l ≡ t ∷ ws
      → lua.type_of t ≡ table_type
      → 0 < (lua.ref (lua.push t l)).0
      → Enumerates lua (lua.heap (lua.ref (lua.push t l)).1) t lua.nil es
      → length es < n
      → length es < 2 ^ 31
      → m.stack_count ≡ length ws
      → Ended (fold_entries (config_entry lua) info es) ws (read_config lua n m info l)
  unfolding read_config
  read_config-Ended n m info l t ws es e table pos chain enough small count =
      read_table-Ended (config_body lua) (config_entry lua) (config_body-Follows lua) n m info l t
        ws es e table pos chain enough small count

  Ended-named :
      (ws : List V) (step : Step LuaServerData) (o : Option (Outcome L (LuaServerData × L)))
      → Ended step ws o
      → Ended (named step) ws (elim o [
        | none ↦ none
        | some result ↦ some (do i ← result; done (with_default i.0, i.1))
      ])
  Ended-named ws (shuts info) o h = rw h refl
  Ended-named ws (leaves info) o (l, h, left) = (l, rw h refl, left)
  Ended-named ws (goes_on info) o (l, h, left) = (l, rw h refl, left)

  read_info-Ended :
      (n : ℕ) (m : LuaManager) (l : L) (t : V) (ws : List V) (es : List (V × V))
      → lua.stack l ≡ t ∷ ws
      → lua.type_of t ≡ table_type
      → 0 < (lua.ref (lua.push t l)).0
      → Enumerates lua (lua.heap (lua.ref (lua.push t l)).1) t lua.nil es
      → length es < n
      → length es < 2 ^ 31
      → m.stack_count ≡ length ws
      → Ended (named (fold_entries (info_entry lua) empty_data es)) ws (read_info lua n m l)
  unfolding read_info
  read_info-Ended n m l t ws es e table pos chain enough small count =
      rw (read_info, at_top {S = L} lua t ws l e, table)
        (Ended-named ws (fold_entries (info_entry lua) empty_data es) _ (
          read_table-Ended (info_body lua) (info_entry lua) (info_body-Follows lua) n m empty_data l
            t ws es e table pos chain enough small count))
