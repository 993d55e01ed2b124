-- ===== src/Tests/SmallWorld.antt =====
-- The small interpreter with objects for sockets: scripts whose calls succeed, or fail with an error
-- that is no string.
use Prim.Native.String.{String}
use text.Mathlib.Text.{◌==◌ as str_eq}
use text.Mathlib.TextPositions.{eq_refl}
use h1z1_server.Base.{
  ℕ, ◌+◌, ◌<◌, refl, sym, Bool, true, false, Option, none, some, [], ◌∷◌, drop, if◌then◌else◌,
  arith, done,
}
use h1z1_server.LuaStream.{Arguments}
use h1z1_server.Sockets.{NetSocket}
use h1z1_server.LuaNetSocket.{World, Pointers, Scripts}
use h1z1_server.LuaNetSocket.Methods.{Environment}
use h1z1_server.LuaNetSocket.Firing.{IsQuiet}
use h1z1_server.Tests.StreamTests.{grant_all}
use h1z1_server.Tests.SmallLua.{
  Value, nothing, truth, number, chars, object, client, block_of, Machine, with_values, string_of,
  truth_of, small_lua, true-ne-false,
}

abbrev place_of : String → Value → Option ℕ
place_of name (object other place) = if str_eq name other then some place else none
place_of name _ = none

abbrev whole_of : Value → Option ℕ
whole_of (number n) = some n
whole_of _ = none

abbrev client_of : Value → Option ℕ
client_of (client p) = some p
client_of _ = none

abbrev block_pointer_of : Value → Option ℕ
block_pointer_of (block_of p) = some p
block_pointer_of _ = none

abbrev is_truth : Value → Bool
is_truth (truth b) = true
is_truth _ = false

abbrev pub checks : Arguments Value ℕ
checks = record {
  check_udata = place_of;
  check_number = whole_of;
  check_bytes = string_of;
  none_or_nil = λ v. false;
  to_boolean = truth_of;
  to_string = string_of;
  int_of = λ n. some n;
  size_of = λ n. some n;
  number = number;
  bytes = chars;
  userdata = object;
  check_udata-userdata = λ name place. rw (eq_refl name) refl;
}

abbrev pub pointers : Pointers Value
pointers = record {
  light_userdata = client;
  check_light = client_of;
  block = block_of;
  block_pointer = block_pointer_of;
  block_pointer-block = λ p. refl;
  is_boolean = is_truth;
  boolean = truth;
}

abbrev pub SmallScripts : Type 0
SmallScripts = Scripts (small_lua [])

abbrev after_call : ℕ → World Machine → World Machine
after_call args w = record w { state = with_values (drop (args + 1) w.state.values) w.state }

abbrev after_error : ℕ → World Machine → World Machine
after_error args w = record w {
  state = with_values (truth false ∷ drop (args + 1) w.state.values) w.state;
}

abbrev pub scripts : SmallScripts
scripts = record {
  run = λ args w. (true, after_call args w);
  run-success = λ args w h e. refl;
  run-failure = λ args w h e. absurd (true-ne-false e);
}

abbrev pub failing_scripts : SmallScripts
failing_scripts = record {
  run = λ args w. (false, after_error args w);
  run-success = λ args w h e. absurd (true-ne-false (sym e));
  run-failure = λ args w h e. (truth false, refl);
}

pub references : (l : Machine) → 0 < ((small_lua []).ref l).0
references l = omega arith

pub quiet : IsQuiet (small_lua []) checks pointers scripts grant_all
quiet = record { same_sockets = λ args w. refl; same_events = λ args w. refl }

-- A socket at the pointer 1, with no handlers.
abbrev pub bare : NetSocket
bare = record {
  initialized = true;
  server = 7;
  buffer_size = 16;
  socket_handlers = [];
  socket_userdata = [];
  listen_thread = 0;
}

abbrev pub start : World Machine
start = record {
  state = record {
    values = number 5 ∷ [];
    memory = record { count = 3; refs = λ (i : ℕ). nothing; globals = λ (name : String). nothing };
  };
  sockets = some bare ∷ [];
  events = [];
  readers = [];
}

-- The handler of events is the function at 40; a packet of two bytes from the client 9 waits.
abbrev pub env : Environment Machine
env = record {
  others = λ h u p bytes size w. done w;
  handler = 40;
  receive = λ s. (2, (9, 1 ∷ 2 ∷ []));
  sendto = λ socket to block size. size;
  rounds = 10;
  thread = 1;
}
