-- ===== src/Tests/SmallLua.antt =====
-- A small interpreter with the interface that the LuaSystem's modules take: its tables all have the
-- same entries, a script is a text whose run gives as many tables as results are wanted, and the
-- empty script does not compile.
use Prim.Native.String.{String}
use text.Mathlib.Text.{◌==◌ as str_eq}
use text.Mathlib.TextPositions.{eq_refl}
use h1z1_server.Base.{
  ℕ, suc, ◌+◌, ◌-◌, ◌≡◌, ◌≢◌, refl, ap, Bool, true, false, Option, none, some, List, [], ◌∷◌, ◌++◌,
  length, drop, get_elem?, replicate, length-replicate, ◌&&◌, ◌==◌, if◌then◌else◌, arith, codes,
}
use h1z1_server.Lua.{
  Lua, LuaType, nil_type, boolean_type, number_type, string_type, table_type, function_type,
  userdata_type, light_userdata,
}

pub data Value : Type 0 where
  nothing a_table : Value
  truth : Bool → Value
  number : ℕ → Value
  chars : List ℕ → Value
  function : String → Value
  object : String → ℕ → Value
  client block_of : ℕ → Value

pub record Heap : Type 0 where
  pub count : ℕ
  pub refs : ℕ → Value
  pub globals : String → Value

pub record Machine : Type 0 where
  pub values : List Value
  pub memory : Heap

abbrev pub value_type : Value → LuaType
value_type nothing = nil_type
value_type a_table = table_type
value_type (truth b) = boolean_type
value_type (number n) = number_type
value_type (chars bs) = string_type
value_type (function f) = function_type
value_type (object name place) = userdata_type
value_type (client p) = light_userdata
value_type (block_of p) = light_userdata

abbrev pub value_bytes : Value → List ℕ
value_bytes (chars bs) = bs
value_bytes _ = []

abbrev pub string_of : Value → Option (List ℕ)
string_of (chars bs) = some bs
string_of _ = none

abbrev pub truth_of : Value → Bool
truth_of nothing = false
truth_of (truth b) = b
truth_of _ = true

abbrev pub number_of : Value → ℕ
number_of (number n) = n
number_of _ = 0

abbrev pub same_chars : List ℕ → List ℕ → Bool
same_chars [] [] = true
same_chars (b ∷ bs) (c ∷ cs) = (b == c) && same_chars bs cs
same_chars _ _ = false

abbrev pub same_value : Value → Value → Bool
same_value nothing nothing = true
same_value a_table a_table = true
same_value (number m) (number n) = m == n
same_value (chars bs) (chars cs) = same_chars bs cs
same_value _ _ = false

abbrev pub value_under : List (Value × Value) → Value → Value
value_under [] k = nothing
value_under (e ∷ es) k = if same_value e.0 k then e.1 else value_under es k

abbrev pub head : List (Value × Value) → Option (Value × Value)
head [] = none
head (e ∷ es) = some e

abbrev pub behind : List (Value × Value) → Value → Option (Value × Value)
behind [] k = none
behind (e ∷ es) k = if same_value e.0 k then head es else behind es k

abbrev pub entry_behind : List (Value × Value) → Value → Option (Value × Value)
entry_behind es nothing = head es
entry_behind es (number n) = behind es (number n)
entry_behind es (chars bs) = behind es (chars bs)
entry_behind es _ = none

-- `lua_next`, on the stack.
abbrev pub is_entry : Option (Value × Value) → Bool
is_entry none = false
is_entry (some e) = true

abbrev pub entry_pushed : Value → List Value → Option (Value × Value) → List Value
entry_pushed t vs none = t ∷ vs
entry_pushed t vs (some e) = e.1 ∷ e.0 ∷ t ∷ vs

abbrev pub more_entries : List (Value × Value) → List Value → Bool
more_entries es (k ∷ t ∷ vs) = is_entry (entry_behind es k)
more_entries es _ = false

abbrev pub next_values : List (Value × Value) → List Value → List Value
next_values es (k ∷ t ∷ vs) = entry_pushed t vs (entry_behind es k)
next_values es vs = vs

abbrev pub indexed : List (Value × Value) → List Value → List Value
indexed es (k ∷ vs) = value_under es k ∷ vs
indexed es [] = []

abbrev pub top_or_nil : List Value → Value
top_or_nil [] = nothing
top_or_nil (v ∷ vs) = v

abbrev pub store_ref : Machine → Machine
store_ref l = record {
  values = drop 1 l.values;
  memory = record {
    count = suc l.memory.count;
    refs = λ (i : ℕ). if i == suc l.memory.count then top_or_nil l.values else l.memory.refs i;
    globals = l.memory.globals;
  };
}

abbrev pub store_global : String → Machine → Machine
store_global name l = record {
  values = drop 1 l.values;
  memory = record {
    count = l.memory.count;
    refs = l.memory.refs;
    globals = λ (other : String).
        if str_eq other name then top_or_nil l.values else l.memory.globals other;
  };
}

abbrev pub with_values : List Value → Machine → Machine
with_values vs l = record { values = vs; memory = l.memory }

abbrev pub compiled : List ℕ → Bool
compiled [] = false
compiled (b ∷ bs) = true

pub string_of-value_bytes :
    (v : Value) → value_type v ≡ string_type → string_of v ≡ some (value_bytes v)
string_of-value_bytes (chars bs) e = refl
string_of-value_bytes nothing e = cc
string_of-value_bytes a_table e = cc
string_of-value_bytes (truth b) e = cc
string_of-value_bytes (number n) e = cc
string_of-value_bytes (function f) e = cc
string_of-value_bytes (object name place) e = cc
string_of-value_bytes (client p) e = cc
string_of-value_bytes (block_of p) e = cc

pub true-ne-false : true ≢ false
true-ne-false e = cc

pub same_number : (n : ℕ) → (n == n) ≡ true
same_number n = ground arith

abbrev pub small_lua : List (Value × Value) → Lua Value Heap Machine ℕ
small_lua es = record {
  stack = λ l. l.values;
  heap = λ l. l.memory;
  type_of = value_type;
  nil = nothing;
  bytes = value_bytes;
  to_boolean = truth_of;
  to_number = number_of;
  to_integer = number_of;
  number_minus_one = 0;
  push = λ v l. with_values (v ∷ l.values) l;
  stack-push = λ v l. refl;
  heap-push = λ v l. refl;
  pop = λ n l. with_values (drop n l.values) l;
  stack-pop = λ n l h. refl;
  heap-pop = λ n l h. refl;
  set_top = λ n l. with_values (drop (length l.values - n) l.values) l;
  to_lstring = λ i l. (elim (get_elem? l.values i) [ none ↦ none | some v ↦ string_of v ], l);
  to_lstring-string = λ i l v e string. rw e (ap (λ s. (s, l)) (string_of-value_bytes v string));
  ref = λ l. (suc l.memory.count, store_ref l);
  ref_value = λ h i. h.refs i;
  stack-ref = λ v l vs e. rw e refl;
  ref_value-ref = λ v l vs e. rw (same_number (suc l.memory.count), e) refl;
  unref = λ r l. l;
  stack-unref = λ r l. refl;
  entry = λ h t k. value_under es k;
  raw_get = λ l. with_values (indexed es l.values) l;
  stack-raw_get = λ l k t vs e table. rw e refl;
  heap-raw_get = λ l. refl;
  following = λ h t k. entry_behind es k;
  next = λ l. (more_entries es l.values, with_values (next_values es l.values) l);
  next-more = λ l k t vs e on table some_entry.
      (rw on (ap is_entry some_entry), rw on (ap (entry_pushed t vs) some_entry));
  next-last =
      λ l k t vs on table last. (rw on (ap is_entry last), rw on (ap (entry_pushed t vs) last));
  heap-next = λ l. refl;
  objlen = λ h v. length es;
  integer = number;
  c_function = function;
  new_table = λ l. with_values (a_table ∷ l.values) l;
  stack-new_table = λ l. (a_table, refl);
  set_field = λ name l. with_values (drop 1 l.values) l;
  stack-set_field = λ name l v t vs e. rw e refl;
  set_global = store_global;
  stack-set_global = λ name l v vs e. rw e refl;
  global = λ h name. h.globals name;
  global-set_global = λ name l v vs e. rw (eq_refl name, e) refl;
  global-set_global_other = λ other name l e. rw e refl;
  opened = record {
    values = [];
    memory = record { count = 0; refs = λ (i : ℕ). nothing; globals = λ (name : String). nothing };
  };
  load_buffer =
      λ script name l. (compiled script, with_values (chars (codes "error") ∷ l.values) l);
  stack-load_buffer = λ script name l. (chars (codes "error"), refl);
  pcall = λ args results l.
      (true, with_values (replicate results a_table ++ drop (args + 1) l.values) l);
  pcall-success = λ args results l h e.
      (replicate results a_table, refl, length-replicate {A = Value} results a_table);
  pcall-failure = λ args results l h e. absurd (true-ne-false e);
}
