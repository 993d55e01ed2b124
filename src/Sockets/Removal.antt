-- ===== src/Sockets/Removal.antt =====
-- The removal of handlers, against the registry.
use h1z1_server.Base.{
  subst, ℕ, zero, suc, ◌<◌, ◌≤◌, ◌≡◌, refl, sym, ◌∙◌, ap, ◌⊎◌, inl, inr, true, none, some, List, [],
  ◌∷◌, ◌++◌, length, get_elem?, arith, done, fault,
}
use h1z1_server.Sockets.UserData.{insert, erase, Differs, lookup-erase, lookup-insert}
use mathlib.Core.List.{append_assoc}
use h1z1_server.Sockets.Registry.{
  keys, IsNew, IsDistinct, HasEntries, Represents, without, without-IsNew, remove_first-IsNew,
  HasEntries-erase,
}
use h1z1_server.Sockets.{
  NetSocket, add_handler, remove_first, remove_handler, delete_at, remove_handler_at, userdata_of,
}

pub remove_handler_at-inside :
    (s : NetSocket) (i h : ℕ)
    → get_elem? s.socket_handlers i ≡ some h
    → remove_handler_at s i
      ≡ done (record s {
        socket_handlers = delete_at i s.socket_handlers;
        socket_userdata = erase h s.socket_userdata;
      })
unfolding remove_handler_at
remove_handler_at-inside s i h e = rw (remove_handler_at, e)

pub remove_handler_at-outside :
    (s : NetSocket) (i : ℕ) → get_elem? s.socket_handlers i ≡ none → remove_handler_at s i ≡ fault
unfolding remove_handler_at
remove_handler_at-outside s i e = rw (remove_handler_at, e)

cases : (a b : ℕ) → Differs a b ⊎ (a ≡ b)
cases a b = ground arith

-- The test of an entry, decided.
kept :
    (h : ℕ) (p : ℕ × ℕ) (reg : List (ℕ × ℕ))
    → Differs p.0 h
    → without h (p ∷ reg) ≡ p ∷ without h reg
unfolding without
kept h p reg d = ground (arith, d)

dropped : (h : ℕ) (p : ℕ × ℕ) (reg : List (ℕ × ℕ)) → p.0 ≡ h → without h (p ∷ reg) ≡ without h reg
unfolding without
dropped h p reg e = ground (arith, e)

module _ (h : ℕ) where
  IsNew-without : (reg : List (ℕ × ℕ)) → IsNew h (without h reg)
  unfolding without
  IsNew-without [] = tt
  IsNew-without (p ∷ reg) = elim (cases p.0 h) [
    | inl d ↦ subst (IsNew h) (sym (kept h p reg d)) (d, IsNew-without reg)
    | inr e ↦ subst (IsNew h) (sym (dropped h p reg e)) (IsNew-without reg)
  ]

  IsNew-without_other : (j : ℕ) (reg : List (ℕ × ℕ)) → IsNew j reg → IsNew j (without h reg)
  unfolding without
  IsNew-without_other j [] n = tt
  IsNew-without_other j (p ∷ reg) n = elim (cases p.0 h) [
    | inl d ↦ subst (IsNew j) (sym (kept h p reg d)) (n.0, IsNew-without_other j reg n.1)
    | inr e ↦ subst (IsNew j) (sym (dropped h p reg e)) (IsNew-without_other j reg n.1)
  ]

  HasEntries-without : (m reg : List (ℕ × ℕ)) → HasEntries m reg → HasEntries m (without h reg)
  unfolding without
  HasEntries-without m [] n = tt
  HasEntries-without m (p ∷ reg) n = elim (cases p.0 h) [
    | inl d ↦ subst (HasEntries m) (sym (kept h p reg d)) (n.0, HasEntries-without m reg n.1)
    | inr e ↦ subst (HasEntries m) (sym (dropped h p reg e)) (HasEntries-without m reg n.1)
  ]

  IsDistinct-without : (reg : List (ℕ × ℕ)) → IsDistinct reg → IsDistinct (without h reg)
  unfolding without
  IsDistinct-without [] n = tt
  IsDistinct-without (p ∷ reg) n = elim (cases p.0 h) [
    | inl d ↦
        subst IsDistinct (sym (kept h p reg d))
          (IsNew-without_other p.0 reg n.0, IsDistinct-without reg n.1)
    | inr e ↦ subst IsDistinct (sym (dropped h p reg e)) (IsDistinct-without reg n.1)
  ]

  -- A handler is not registered, or the loop finds and removes it.
  remove_first-cases :
      (reg : List (ℕ × ℕ))
      → IsDistinct reg
      → IsNew h reg ⊎ (remove_first h (keys reg) ≡ (keys (without h reg), true))
  unfolding remove_first
  remove_first-cases [] n = inl tt
  remove_first-cases (p ∷ reg) n = elim (cases p.0 h) [
    | inr e ↦ inr (
        rw (dropped h p reg e, without-IsNew h reg (subst (λ a. IsNew a reg) e n.0))
          (ground (arith, e)))
    | inl d ↦ elim (remove_first-cases reg n.1) [
      | inl new ↦ inl (d, new)
      | inr found ↦ inr (rw (kept h p reg d) (ground (arith, d, found)))
    ]
  ]

  -- What remains, with the entry of the handler erased.
  erase-Represents :
      (s : NetSocket) (reg : List (ℕ × ℕ)) (hs : List ℕ)
      → Represents s reg
      → hs ≡ keys (without h reg)
      → Represents
          (record s { socket_handlers = hs; socket_userdata = erase h s.socket_userdata })
          (without h reg)
  erase-Represents s reg hs r e = record {
    in_order = e;
    entries =
        HasEntries-erase s.socket_userdata (without h reg) h
          (HasEntries-without s.socket_userdata reg r.entries) (IsNew-without reg);
    distinct = IsDistinct-without reg r.distinct;
  }

-- On a socket that has the handlers and user data of a registry in which each handler stands
-- once, `RemoveHandler` of a handler takes it out of the registry, if it is there, and changes
-- nothing else of it.
pub remove_handler-Represents :
    (s : NetSocket) (reg : List (ℕ × ℕ)) (handler : ℕ)
    → Represents s reg
    → Represents (remove_handler s handler) (without handler reg)
unfolding remove_handler
remove_handler-Represents s reg handler r = elim (remove_first-cases handler reg r.distinct) [
  | inl new ↦ rw (in_vector ∙ remove_first-IsNew handler reg new, without-IsNew handler reg new) r
  | inr found ↦
      rw (in_vector ∙ found) (erase-Represents handler s reg (keys (without handler reg)) r refl)
]
  where
    in_vector : remove_first handler s.socket_handlers ≡ remove_first handler (keys reg)
    in_vector = ap (remove_first handler) r.in_order

-- The entry at an index, in the registry and in the vector.
record Entry (reg : List (ℕ × ℕ)) (i : ℕ) : Type 0 where
  entry : ℕ × ℕ
  at_place : get_elem? (keys reg) i ≡ some entry.0
  rest : delete_at i reg ≡ without entry.0 reg
  rest_keys : delete_at i (keys reg) ≡ keys (without entry.0 reg)
  old : (j : ℕ) → IsNew j reg → Differs entry.0 j

get_elem?-Entry : (reg : List (ℕ × ℕ)) (i : ℕ) → IsDistinct reg → i < length reg → Entry reg i
unfolding delete_at
get_elem?-Entry [] i d h = absurd (omega arith)
get_elem?-Entry (p ∷ reg) zero d h = record {
  entry = p;
  at_place = refl;
  rest = sym (dropped p.0 p reg refl ∙ without-IsNew p.0 reg d.0);
  rest_keys = ap keys (sym (dropped p.0 p reg refl ∙ without-IsNew p.0 reg d.0));
  old = λ j n. n.0;
}
get_elem?-Entry (p ∷ reg) (suc i) d h =
    let e = get_elem?-Entry reg i d.1 (omega arith) in
    let differs = flipped e.entry.0 p.0 (e.old p.0 d.0) in
    record {
      entry = e.entry;
      at_place = e.at_place;
      rest = ap (◌∷◌ p) e.rest ∙ sym (kept e.entry.0 p reg differs);
      rest_keys = ap (◌∷◌ p.0) e.rest_keys ∙ ap keys (sym (kept e.entry.0 p reg differs));
      old = λ j n. e.old j n.1;
    }
  where
    flipped : (a b : ℕ) → Differs a b → Differs b a
    flipped a b (inl h) = inr h
    flipped a b (inr h) = inl h

outside : (reg : List (ℕ × ℕ)) (i : ℕ) → length reg ≤ i → get_elem? (keys reg) i ≡ none
outside [] i h = refl
outside (p ∷ reg) zero h = absurd (omega arith)
outside (p ∷ reg) (suc i) h = outside reg i (omega arith)

-- On a socket that has the handlers and user data of a registry in which each handler stands
-- once, `RemoveHandler` of an index inside takes the entry at that place out of the registry,
-- and of an index outside accesses memory outside the vector.
pub remove_handler_at-cases :
    (s : NetSocket) (reg : List (ℕ × ℕ)) (i : ℕ)
    → Represents s reg
    → ((i < length reg)
        × ((t : NetSocket) × (remove_handler_at s i ≡ done t) × Represents t (delete_at i reg)))
      ⊎ ((length reg ≤ i) × (remove_handler_at s i ≡ fault))
unfolding remove_handler_at
remove_handler_at-cases s reg i r = elim (places i (length reg)) [
  | inl h ↦
      let e = get_elem?-Entry reg i r.distinct h in
      inl (
        h,
        (
          record s {
            socket_handlers = delete_at i s.socket_handlers;
            socket_userdata = erase e.entry.0 s.socket_userdata;
          },
          rw (remove_handler_at, ap (λ (hs : List ℕ). get_elem? hs i) r.in_order ∙ e.at_place),
          rw e.rest (
              erase-Represents e.entry.0 s reg (delete_at i s.socket_handlers) r
                (ap (delete_at i) r.in_order ∙ e.rest_keys)),
        ),
      )
  | inr h ↦
      inr (
        h,
        rw (remove_handler_at, ap (λ (hs : List ℕ). get_elem? hs i) r.in_order ∙ outside reg i h),
      )
]
  where
    places : (a b : ℕ) → (a < b) ⊎ (b ≤ a)
    places a b = ground arith

remove_first-append :
    (h : ℕ) (reg : List (ℕ × ℕ)) (rest : List ℕ)
    → IsNew h reg
    → remove_first h (keys reg ++ h ∷ rest) ≡ (keys reg ++ rest, true)
unfolding remove_first
remove_first-append h [] rest n = ground arith
remove_first-append h (p ∷ reg) rest n = ground (arith, n.0, remove_first-append h reg rest n.1)

-- A socket with a handler added twice.
abbrev pub added_twice : NetSocket → ℕ → ℕ → ℕ → NetSocket
added_twice s handler first second = (add_handler (add_handler s handler first).1 handler second).1

-- A new handler added twice to a socket that represents a registry has the second user data for
-- both registrations; after one `RemoveHandler` it is still registered, with a null pointer for
-- user data.
pub add_handler-twice :
    (s : NetSocket) (reg : List (ℕ × ℕ)) (handler first second : ℕ)
    → Represents s reg
    → IsNew handler reg
    → ((userdata_of (added_twice s handler first second) handler).0 ≡ second)
      × ((remove_handler (added_twice s handler first second) handler).socket_handlers
          ≡ keys reg ++ handler ∷ [])
      × ((userdata_of (remove_handler (added_twice s handler first second) handler) handler).0 ≡ 0)
unfolding add_handler userdata_of remove_handler
add_handler-twice s reg handler first second r new = (
  rw (userdata_of, lookup-insert handler second (insert handler first s.socket_userdata)) refl,
  rw (remove_handler, found) refl,
  rw
      (
        remove_handler,
        found,
        userdata_of,
        lookup-erase handler (insert handler second (insert handler first s.socket_userdata)),
      )
      refl,
)
  where
    found :
        remove_first handler ((s.socket_handlers ++ handler ∷ []) ++ handler ∷ [])
        ≡ (keys reg ++ handler ∷ [], true)
    found =
        ap (remove_first handler) (append_assoc s.socket_handlers (handler ∷ []) (handler ∷ []))
        ∙ ap (λ (hs : List ℕ). remove_first handler (hs ++ handler ∷ handler ∷ [])) r.in_order
        ∙ remove_first-append handler reg (handler ∷ []) new
