-- ===== src/Sockets/Registry.antt =====
-- The handlers of a socket as an abstract registry: handlers with their user data, in the order
-- of registration, each registered once.
use h1z1_server.Base.{
  ℕ, suc, ◌≡◌, refl, sym, ◌∙◌, ap, inl, inr, false, some, List, [], ◌∷◌, ◌++◌, length, ◌==◌,
  if◌then◌else◌, arith, length-append,
}
use h1z1_server.Sockets.UserData.{
  lookup, insert, erase, Differs, lookup-insert, lookup-insert_other, lookup-erase_other,
}
use h1z1_server.Sockets.{NetSocket, add_handler, remove_first}

abbrev pub keys : List (ℕ × ℕ) → List ℕ
keys [] = []
keys (p ∷ reg) = p.0 ∷ keys reg

-- No handler of the registry is `h`.
abbrev pub IsNew : ℕ → List (ℕ × ℕ) → Type 0
IsNew h [] = Unit
IsNew h (p ∷ reg) = Differs p.0 h × IsNew h reg

abbrev pub IsDistinct : List (ℕ × ℕ) → Type 0
IsDistinct [] = Unit
IsDistinct (p ∷ reg) = IsNew p.0 reg × IsDistinct reg

-- The map has the user data of each handler.
abbrev pub HasEntries : List (ℕ × ℕ) → List (ℕ × ℕ) → Type 0
HasEntries m [] = Unit
HasEntries m (p ∷ reg) = (lookup p.0 m ≡ some p.1) × HasEntries m reg

pub record Represents (s : NetSocket) (reg : List (ℕ × ℕ)) : Type 0 where
  pub in_order : s.socket_handlers ≡ keys reg
  pub entries : HasEntries s.socket_userdata reg
  pub distinct : IsDistinct reg

-- The registry without a handler.
unfoldable pub without : ℕ → List (ℕ × ℕ) → List (ℕ × ℕ)
without h [] = []
without h (p ∷ reg) = let rest = without h reg in if p.0 == h then rest else p ∷ rest

HasEntries-insert :
    (m reg : List (ℕ × ℕ)) (h u : ℕ)
    → HasEntries m reg
    → IsNew h reg
    → HasEntries (insert h u m) (reg ++ (h, u) ∷ [])
HasEntries-insert m [] h u e new = (lookup-insert h u m, tt)
HasEntries-insert m (p ∷ reg) h u e new =
    (lookup-insert_other p.0 h u m new.0 ∙ e.0, HasEntries-insert m reg h u e.1 new.1)

IsNew-append :
    (j h u : ℕ) (reg : List (ℕ × ℕ)) → IsNew j reg → Differs h j → IsNew j (reg ++ (h, u) ∷ [])
IsNew-append j h u [] n d = (d, tt)
IsNew-append j h u (p ∷ reg) n d = (n.0, IsNew-append j h u reg n.1 d)

Differs-sym : (a b : ℕ) → Differs a b → Differs b a
Differs-sym a b (inl h) = inr h
Differs-sym a b (inr h) = inl h

IsDistinct-append :
    (h u : ℕ) (reg : List (ℕ × ℕ)) → IsDistinct reg → IsNew h reg → IsDistinct (reg ++ (h, u) ∷ [])
IsDistinct-append h u [] d n = (tt, tt)
IsDistinct-append h u (p ∷ reg) d n =
    (IsNew-append p.0 h u reg d.0 (Differs-sym p.0 h n.0), IsDistinct-append h u reg d.1 n.1)

keys-append : (reg : List (ℕ × ℕ)) (h u : ℕ) → keys (reg ++ (h, u) ∷ []) ≡ keys reg ++ h ∷ []
keys-append [] h u = refl
keys-append (p ∷ reg) h u = ap (◌∷◌ p.0) (keys-append reg h u)

pub length-keys : (reg : List (ℕ × ℕ)) → length (keys reg) ≡ length reg
length-keys [] = refl
length-keys (p ∷ reg) = ap suc (length-keys reg)

-- On a socket that has the handlers and user data of a registry in which each handler stands
-- once, `AddHandler` of a new handler adds it with its user data at the end of the registry, and
-- returns its index.
pub add_handler-Represents :
    (s : NetSocket) (reg : List (ℕ × ℕ)) (handler userdata : ℕ)
    → Represents s reg
    → IsNew handler reg
    → Represents (add_handler s handler userdata).1 (reg ++ (handler, userdata) ∷ [])
      × ((add_handler s handler userdata).0 ≡ length reg)
unfolding add_handler
add_handler-Represents s reg handler userdata r new = (
  record {
    in_order =
        ap (λ (hs : List ℕ). hs ++ handler ∷ []) r.in_order
        ∙ sym (keys-append reg handler userdata);
    entries = HasEntries-insert s.socket_userdata reg handler userdata r.entries new;
    distinct = IsDistinct-append handler userdata reg r.distinct new;
  },
  omega (
    arith,
    length-append s.socket_handlers (handler ∷ []),
    ap length r.in_order,
    length-keys reg,
  ),
)

pub without-IsNew : (h : ℕ) (reg : List (ℕ × ℕ)) → IsNew h reg → without h reg ≡ reg
unfolding without
without-IsNew h [] n = refl
without-IsNew h (p ∷ reg) n = ground (arith, n.0, without-IsNew h reg n.1)

-- What the loop of `RemoveHandler` finds and leaves.
pub remove_first-IsNew :
    (h : ℕ) (reg : List (ℕ × ℕ)) → IsNew h reg → remove_first h (keys reg) ≡ (keys reg, false)
unfolding remove_first
remove_first-IsNew h [] n = refl
remove_first-IsNew h (p ∷ reg) n = ground (arith, n.0, remove_first-IsNew h reg n.1)

pub HasEntries-erase :
    (m reg : List (ℕ × ℕ)) (h : ℕ) → HasEntries m reg → IsNew h reg → HasEntries (erase h m) reg
HasEntries-erase m [] h e n = tt
HasEntries-erase m (p ∷ reg) h e n =
    (lookup-erase_other p.0 h m n.0 ∙ e.0, HasEntries-erase m reg h e.1 n.1)
