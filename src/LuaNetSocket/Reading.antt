-- ===== src/LuaNetSocket/Reading.antt =====
-- What the function of an event reads of a packet.
use h1z1_server.Base.{
  ℕ, ◌<◌, ◌≡◌, refl, ap, ◌∙◌, ◌^◌, Bool, true, some, List, [], ◌∷◌, ◌++◌, length, get_elem?,
  get_elem?-last, arith, done, codes,
}
use h1z1_server.Lua.{Lua}
use h1z1_server.Stream.Buffer.{Stream, set_idx}
use h1z1_server.Stream.Reader.{init_reader, read_dword}
use h1z1_server.Stream.Fields.{dword, encode, read_field, Reads, read_field-Reads}
use h1z1_server.LuaStream.{Arguments}
use h1z1_server.LuaStream.Methods.{call_reader}
use h1z1_server.LuaStream.GetBuffer.{reader_word-done}
use h1z1_server.LuaNetSocket.{EventUserdata, World, Pointers, Scripts}
use h1z1_server.LuaNetSocket.Events.{event_handler}
use h1z1_server.LuaNetSocket.Calling.{IsActive, event_handler-Settled}

module _ (v : ℕ) (rest : List ℕ) (fits : v < 2 ^ 32)
    (small : length (encode true dword v ++ rest) < 2 ^ 31) where
  abbrev reader : Stream
  reader =
      init_reader (some (encode true dword v ++ rest)) (length (encode true dword v ++ rest)) true

  reader-Reads : Reads reader v rest (read_field reader dword)
  unfolding init_reader set_idx
  reader-Reads =
      read_field-Reads reader dword v rest
        (record { sized = refl; small = small; inside = omega arith }) (omega (arith, fits)) refl

  -- For an active event and a packet of fewer than 2 ^ 31 bytes that starts with a 32-bit word,
  -- the most significant byte first, `LuaNetSocket_EventHandler` returns and calls the function
  -- of the event with a reader of which `ReadDword` returns that word; sockets are as the call
  -- has left them.
  pub event_handler-read_dword :
      {V H L D : Type 0} (lua : Lua V H L D) (checks : Arguments V D) (pointers : Pointers V)
      (scripts : Scripts lua) (malloc : ℕ → Bool) (u client : ℕ) (w : World L) (e : EventUserdata)
      → IsActive lua checks pointers scripts malloc u w e
      → (called w' : World L) × (packet : V) × (objects : List Stream) × (lua.stack called.state
          ≡ packet
            ∷ pointers.light_userdata client
            ∷ lua.ref_value (lua.heap w.state) e.func_ref
            ∷ lua.stack w.state)
        × (event_handler lua checks pointers scripts malloc u client
              (encode true dword v ++ rest)
              (length (encode true dword v ++ rest))
              w
            ≡ done w')
        × (w'.sockets ≡ (scripts.run 2 called).1.sockets)
        × (call_reader checks malloc (codes "ReadDword") (packet ∷ []) called.readers
            ≡ some (done (some (checks.number v), objects)))
  unfolding call_reader read_field
  event_handler-read_dword lua checks pointers scripts malloc u client w e a =
      let (called, w', ready, returns, settled, sockets, events) =
        event_handler-Settled lua checks pointers scripts malloc u client
          (encode true dword v ++ rest) (length (encode true dword v ++ rest)) w e a in
      (
        called,
        w',
        checks.userdata "ByteStreamReader" (length w.readers),
        _,
        ready.on,
        returns,
        sockets,
        ap some (
            reader_word-done checks malloc called.readers (length w.readers) reader
              (ap (λ (rs : List Stream). get_elem? rs (length w.readers)) ready.reader
                ∙ get_elem?-last w.readers reader)
              read_dword reader-Reads.out v reader-Reads.returns),
      )
