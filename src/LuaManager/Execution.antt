-- ===== src/LuaManager/Execution.antt =====
-- What `Execute` leaves on the stack, and `ClearStack` behind it.
use h1z1_server.Base.{
  ℕ, ◌+◌, ◌-◌, ◌<◌, ◌≡◌, refl, ◌∙◌, ap, ◌⊎◌, inl, inr, Bool, true, false, List, [], ◌∷◌, ◌++◌,
  Bool-cases, length, drop, le→leb, arith, Outcome, done, length-append, drop-append, if◌then◌else◌,
  codes,
}
use h1z1_server.Lua.{Lua}
use h1z1_server.Lua.Access.{
  is_string, is_string-true, at_top, string_at_top_lem, pop_values_lem, stack-pop_one,
}
use h1z1_server.LuaManager.{
  LuaManager, ExecutionResult, compile_error, run_error, success, no_information, report, execute,
  clear_stack,
}

module _ {V H L D : Type 0} (lua : Lua V H L D) where
  -- A call that returned: its result, the manager then, and what it left over the stack `vs`.
  pub record Reported (result : ExecutionResult) (m : LuaManager) (v : V) (vs : List V)
      (r : Outcome (LuaManager × L) (ExecutionResult × (LuaManager × L))) : Type 0 where
    pub out : L
    pub returns :
        r
        ≡ done (
          result,
          (
            record m { error = if is_string (lua.type_of v) then lua.bytes v else no_information },
            out,
          ),
        )
    pub left : lua.stack out ≡ (if is_string (lua.type_of v) then vs else v ∷ vs)

  report-Reported :
      (result : ExecutionResult) (m : LuaManager) (v : V) (vs : List V) (l : L)
      → lua.stack l ≡ v ∷ vs
      → Reported result m v vs (report lua result m l)
  unfolding report
  report-Reported result m v vs l e = elim (Bool-cases (is_string (lua.type_of v))) [
    | inl string ↦ record {
      out = lua.pop 1 l;
      returns = rw (
        report,
        at_top {S = LuaManager × L} lua v vs l e,
        string,
        string_at_top_lem {S = LuaManager × L} lua v vs l e (is_string-true _ string),
        pop_values_lem {S = LuaManager × L} lua 1 l (omega (arith, ap length e)),
      );
      left = rw string (stack-pop_one lua l v vs e);
    }
    | inr other ↦ record {
      out = l;
      returns = rw (report, at_top {S = LuaManager × L} lua v vs l e, other);
      left = rw other e;
    }
  ]

  -- `ClearStack` where values stand over those that were there.
  pub clear_stack-append :
      (m : LuaManager) (l : L) (vs ws : List V)
      → m.stack_count ≡ length ws
      → lua.stack l ≡ vs ++ ws
      → lua.stack (clear_stack lua m l) ≡ ws
  unfolding clear_stack
  clear_stack-append m l vs ws count e =
      rw (clear_stack, le→leb m.stack_count (length (lua.stack l)) (omega (arith, size, count)))
        (lua.stack-pop (length (lua.stack l) - m.stack_count) l (omega arith)
          ∙ ap (drop (length (lua.stack l) - m.stack_count)) e
          ∙ drop-append (length (lua.stack l) - m.stack_count) vs ws (omega (arith, size, count)))
    where
      size : length (lua.stack l) ≡ length vs + length ws
      size = ap length e ∙ length-append vs ws

  -- The cases of a script without arguments.
  pub record Succeeded (m : LuaManager) (results : ℕ) (l : L)
      (r : Outcome (LuaManager × L) (ExecutionResult × (LuaManager × L))) : Type 0 where
    pub out : L
    pub values : List V
    pub returns : r ≡ done (success, (record m { stack_count = length (lua.stack l) }, out))
    pub count : length values ≡ results
    pub left : lua.stack out ≡ values ++ lua.stack l

  module _ (m : LuaManager) (script name : List ℕ) (results : ℕ) (l : L)
      (bound : m.bound ≡ true) where
    abbrev loaded : Bool × L
    loaded = lua.load_buffer script (codes "=LuaManager#" ++ name) l

    abbrev started : LuaManager
    started = record m { stack_count = length (lua.stack l) }

    execute-compile :
        loaded.0 ≡ false
        → execute lua m script name 0 results l ≡ report lua compile_error started loaded.1
    unfolding execute
    execute-compile e = rw (execute, bound, e)

    execute-run :
        loaded.0 ≡ true
        → (lua.pcall 0 results loaded.1).0 ≡ false
        → execute lua m script name 0 results l
          ≡ report lua run_error started (lua.pcall 0 results loaded.1).1
    unfolding execute
    execute-run e f = rw (execute, bound, e, f)

    execute-success :
        loaded.0 ≡ true
        → (lua.pcall 0 results loaded.1).0 ≡ true
        → execute lua m script name 0 results l
          ≡ done (success, (started, (lua.pcall 0 results loaded.1).1))
    unfolding execute
    execute-success e f = rw (execute, bound, e, f)

    -- With a state, `Execute` of a script without arguments either succeeds and leaves as many
    -- results as asked for above the values that were on the stack, or returns a compile or run
    -- error whose message, if it is a string, is taken off the stack and kept, and else stays on
    -- the stack, with a standard text kept; in each case the size of the stack before is
    -- remembered.
    pub execute-cases :
        Succeeded m results l (execute lua m script name 0 results l)
        ⊎ ((result : ExecutionResult) × (v : V) × ((result ≡ compile_error) ⊎ (result ≡ run_error))
            × Reported result started v (lua.stack l) (execute lua m script name 0 results l))
    execute-cases =
        let (w, pushed) = lua.stack-load_buffer script (codes "=LuaManager#" ++ name) l in
        let some_value : 0 < length (lua.stack loaded.1) = omega (arith, ap length pushed) in
        elim (Bool-cases loaded.0) [
          | inr e ↦ inr (
            compile_error,
            w,
            inl refl,
            rw (execute-compile e)
                (report-Reported compile_error started w (lua.stack l) loaded.1 pushed),
          )
          | inl e ↦ elim (Bool-cases (lua.pcall 0 results loaded.1).0) [
            | inl f ↦
                let (values, left, count) = lua.pcall-success 0 results loaded.1 some_value f in
                inl (record {
                  out = (lua.pcall 0 results loaded.1).1;
                  values = values;
                  returns = execute-success e f;
                  count = count;
                  left = left ∙ ap (λ vs. values ++ drop 1 vs) pushed;
                })
            | inr f ↦
                let (v, left) = lua.pcall-failure 0 results loaded.1 some_value f in
                inr (
                  run_error,
                  v,
                  inr refl,
                  rw (execute-run e f) (
                      report-Reported run_error started v (lua.stack l)
                        (lua.pcall 0 results loaded.1).1 (left ∙ ap (λ vs. v ∷ drop 1 vs) pushed)),
                )
          ]
        ]

    reported_left :
        (b : Bool) (v : V) (vs : List V) → (ws : List V) × ((if b then vs else v ∷ vs) ≡ ws ++ vs)
    reported_left true v vs = ([], refl)
    reported_left false v vs = (v ∷ [], refl)

    -- With a state, `Execute` of a script without arguments returns, and `ClearStack` behind it
    -- gives the stack that was there before.
    pub clear_stack-execute :
        (result : ExecutionResult) × (m' : LuaManager) × (l' : L) × (execute lua m script name 0
            results l
          ≡ done (result, (m', l')))
        × (lua.stack (clear_stack lua m' l') ≡ lua.stack l)
    clear_stack-execute = elim execute-cases [
      | inl s ↦ (
        success,
        started,
        s.out,
        s.returns,
        clear_stack-append started s.out s.values (lua.stack l) refl s.left,
      )
      | inr (result, v, which, r) ↦
          let (ws, e) = reported_left (is_string (lua.type_of v)) v (lua.stack l) in
          (
            result,
            _,
            r.out,
            r.returns,
            clear_stack-append _ r.out ws (lua.stack l) refl (r.left ∙ e),
          )
    ]
