-- ===== src/ServerHost/Entries.antt =====
-- The host's reading of a table, against the entries of the table.
use h1z1_server.Base.{
  ◌%◌, ◌≡◌, ap, true, false, not, none, List, [], ◌∷◌, codes, same_bytes, if◌then◌else◌, done,
  Bool-cases, inl, inr, get_elem?,
}
use h1z1_server.Lua.{Lua}
use h1z1_server.Lua.Access.{
  is_string, is_number, at_top, at_second, string_at_top_lem, is_string-true,
}
use h1z1_server.TableReader.{
  TableReader, init_reader, get_key_string, get_key_type, get_type, get_string, get_int,
}
use h1z1_server.ServerHost.Elements.{Step, goes_on, leaves, shuts, Follows}
use h1z1_server.ServerHost.Configuration.{LuaServerData, info_body, config_body}

module _ {V H L D : Type 0} (lua : Lua V H L D) where
  -- What one entry of a server's information, and of its configuration, does.
  abbrev pub info_entry : LuaServerData → V → V → Step LuaServerData
  info_entry info k v =
      if not (is_string (lua.type_of k))
      then shuts info
      else if not (same_bytes (lua.bytes k) (codes "ConfigFile"))
      then leaves info
      else if not (is_string (lua.type_of v))
      then shuts info
      else goes_on (record info { config_file = lua.bytes v })

  abbrev pub config_entry : LuaServerData → V → V → Step LuaServerData
  config_entry info k v =
      if not (is_string (lua.type_of k))
      then shuts info
      else if same_bytes (lua.bytes k) (codes "ServerName")
      then (if is_string (lua.type_of v)
          then goes_on (record info { server_name = lua.bytes v })
          else shuts info)
      else if same_bytes (lua.bytes k) (codes "Host")
      then (if is_string (lua.type_of v)
          then goes_on (record info { host = lua.bytes v })
          else shuts info)
      else if same_bytes (lua.bytes k) (codes "Port")
      then (if is_number (lua.type_of v)
          then goes_on (record info { host = lua.to_integer v % 256 ∷ [] })
          else shuts info)
      else leaves info

  module _ (v k : V) (vs : List V) (l : L) (e : lua.stack l ≡ v ∷ k ∷ vs) where
    get_key_type_lem : get_key_type lua l ≡ done (lua.type_of k)
    unfolding get_key_type
    get_key_type_lem = rw (get_key_type, at_second {S = TableReader × L} lua v k vs l e)

    get_type_lem : get_type lua l ≡ done (lua.type_of v)
    unfolding get_type
    get_type_lem = rw (get_type, at_top {S = TableReader × L} lua v (k ∷ vs) l e)

    get_key_string_lem :
        (r : TableReader)
        → is_string (lua.type_of k) ≡ true
        → get_key_string lua r l ≡ done (lua.bytes k, l)
    unfolding get_key_string
    get_key_string_lem r string =
        let given =
          lua.to_lstring-string 1 l k (ap (λ ws. get_elem? ws 1) e) (is_string-true _ string) in
        rw
          (
            get_key_string,
            at_second {S = TableReader × L} lua v k vs l e,
            string,
            ap (λ p. p.0) given,
          )
          (ap (λ p. done (lua.bytes k, p.1)) given)

    get_string_lem :
        (r : TableReader)
        → is_string (lua.type_of v) ≡ true
        → get_string lua r none l ≡ done (lua.bytes v, l)
    unfolding get_string
    get_string_lem r string =
        string_at_top_lem {S = TableReader × L} lua v (k ∷ vs) l e (is_string-true _ string)

    get_int_lem : (r : TableReader) → get_int lua r none l ≡ done (lua.to_integer v, l)
    unfolding get_int
    get_int_lem r = rw (get_int, at_top {S = TableReader × L} lua v (k ∷ vs) l e)

  pub info_body-Follows : Follows lua (info_body lua) info_entry
  unfolding info_body
  info_body-Follows info l v k vs e = elim (Bool-cases (is_string (lua.type_of k))) [
    | inr f ↦ rw (info_body, get_key_type_lem v k vs l e, f)
    | inl f ↦ elim (Bool-cases (same_bytes (lua.bytes k) (codes "ConfigFile"))) [
      | inr g ↦ rw (
        info_body,
        get_key_type_lem v k vs l e,
        f,
        get_key_string_lem v k vs l e init_reader f,
        g,
      )
      | inl g ↦ elim (Bool-cases (is_string (lua.type_of v))) [
        | inr h ↦ rw (
          info_body,
          get_key_type_lem v k vs l e,
          f,
          get_key_string_lem v k vs l e init_reader f,
          g,
          get_type_lem v k vs l e,
          h,
        )
        | inl h ↦ rw (
          info_body,
          get_key_type_lem v k vs l e,
          f,
          get_key_string_lem v k vs l e init_reader f,
          g,
          get_type_lem v k vs l e,
          h,
          get_string_lem v k vs l e init_reader h,
        )
      ]
    ]
  ]

  -- A configuration's entry with a key that is a string, before the key is looked at.
  module _ (info : LuaServerData) (l : L) (v k : V) (vs : List V) (e : lua.stack l ≡ v ∷ k ∷ vs)
      (f : is_string (lua.type_of k) ≡ true) where
    kt : get_key_type lua l ≡ done (lua.type_of k)
    kt = get_key_type_lem v k vs l e

    vt : get_type lua l ≡ done (lua.type_of v)
    vt = get_type_lem v k vs l e

    ks : get_key_string lua init_reader l ≡ done (lua.bytes k, l)
    ks = get_key_string_lem v k vs l e init_reader f

    config_body-name :
        same_bytes (lua.bytes k) (codes "ServerName") ≡ true
        → config_body lua info l ≡ done (config_entry info k v, l)
    unfolding config_body
    config_body-name g = elim (Bool-cases (is_string (lua.type_of v))) [
      | inl h ↦ rw (config_body, kt, f, ks, vt, g, h, get_string_lem v k vs l e init_reader h)
      | inr h ↦ rw (config_body, kt, f, ks, vt, g, h)
    ]

    config_body-host :
        same_bytes (lua.bytes k) (codes "ServerName") ≡ false
        → same_bytes (lua.bytes k) (codes "Host") ≡ true
        → config_body lua info l ≡ done (config_entry info k v, l)
    unfolding config_body
    config_body-host g g' = elim (Bool-cases (is_string (lua.type_of v))) [
      | inl h ↦ rw (config_body, kt, f, ks, vt, g, g', h, get_string_lem v k vs l e init_reader h)
      | inr h ↦ rw (config_body, kt, f, ks, vt, g, g', h)
    ]

    config_body-other :
        same_bytes (lua.bytes k) (codes "ServerName") ≡ false
        → same_bytes (lua.bytes k) (codes "Host") ≡ false
        → config_body lua info l ≡ done (config_entry info k v, l)
    unfolding config_body
    config_body-other g g' = elim (Bool-cases (same_bytes (lua.bytes k) (codes "Port"))) [
      | inr g'' ↦ rw (config_body, kt, f, ks, vt, g, g', g'')
      | inl g'' ↦ elim (Bool-cases (is_number (lua.type_of v))) [
        | inl h ↦ rw (config_body, kt, f, ks, vt, g, g', g'', h, get_int_lem v k vs l e init_reader)
        | inr h ↦ rw (config_body, kt, f, ks, vt, g, g', g'', h)
      ]
    ]

  pub config_body-Follows : Follows lua (config_body lua) config_entry
  unfolding config_body
  config_body-Follows info l v k vs e = elim (Bool-cases (is_string (lua.type_of k))) [
    | inr f ↦ rw (config_body, get_key_type_lem v k vs l e, f)
    | inl f ↦ elim (Bool-cases (same_bytes (lua.bytes k) (codes "ServerName"))) [
      | inl g ↦ config_body-name info l v k vs e f g
      | inr g ↦ elim (Bool-cases (same_bytes (lua.bytes k) (codes "Host"))) [
        | inl g' ↦ config_body-host info l v k vs e f g g'
        | inr g' ↦ config_body-other info l v k vs e f g g'
      ]
    ]
  ]
