-- ===== src/Sockets/Reachable.antt =====
-- What may become of a `NetSocket`: a step relation for its methods, and an invariant of it.
use h1z1_server.Base.{
  ℕ, zero, suc, ◌≡◌, refl, ap, ◌⊎◌, Bool, true, false, ◌||◌, none, some, List, [], ◌∷◌, ◌++◌,
  get_elem?, ◌==◌, arith, done,
}
use h1z1_server.Sockets.UserData.{lookup, Differs}
use h1z1_server.Sockets.{
  NetSocket, add_handler, remove_first, remove_handler, delete_at, remove_handler_at,
  remove_handlers, userdata_of,
}
use h1z1_server.Sockets.Lifetime.{listen_async}

-- The calls from outside, and the lookup of a handler's user data, which `Listener` makes.
pub data SocketStep : NetSocket → NetSocket → Type 0 where
  adds : (s : NetSocket) (h u : ℕ) → SocketStep s (add_handler s h u).1
  removes : (s : NetSocket) (h : ℕ) → SocketStep s (remove_handler s h)
  removes_at : (s t : NetSocket) (i : ℕ) → remove_handler_at s i ≡ done t → SocketStep s t
  clears : (s : NetSocket) → SocketStep s (remove_handlers s)
  starts : (s : NetSocket) (thread : ℕ) → SocketStep s (listen_async thread s).1
  looks_up :
      (s : NetSocket) (i h : ℕ)
      → get_elem? s.socket_handlers i ≡ some h
      → SocketStep s (userdata_of s h).1

pub data Reaches (s : NetSocket) : NetSocket → Type 0 where
  here : Reaches s s
  next : {t u : NetSocket} → Reaches s t → SocketStep t u → Reaches s u

pub Reaches-trans : {s t u : NetSocket} → Reaches s t → Reaches t u → Reaches s u
Reaches-trans r here = r
Reaches-trans r (next q step) = next (Reaches-trans r q) step

unfoldable pub holds : ℕ → List ℕ → Bool
holds k [] = false
holds k (h ∷ hs) = (h == k) || holds k hs

-- Every user data is that of a handler in the vector.
unfoldable pub IsKeyed : NetSocket → Type 0
IsKeyed s = (k : ℕ) → holds k s.socket_handlers ≡ false → lookup k s.socket_userdata ≡ none

pub cases : (a b : ℕ) → Differs a b ⊎ (a ≡ b)
cases a b = ground arith

pub holds-append :
    (k h : ℕ) (hs : List ℕ) → holds k (hs ++ h ∷ []) ≡ false → (holds k hs ≡ false) × Differs k h
unfolding holds
holds-append k h [] e = (refl, ground (arith, e))
holds-append k h (g ∷ hs) e = ground (arith, holds-append k h hs, e)

pub holds-remove_first :
    (k h : ℕ) (hs : List ℕ) → Differs k h → holds k (remove_first h hs).0 ≡ holds k hs
unfolding holds remove_first
holds-remove_first k h [] d = refl
holds-remove_first k h (g ∷ hs) d = ground (arith, holds-remove_first k h hs d)

pub holds-delete_at :
    (k h i : ℕ) (hs : List ℕ)
    → get_elem? hs i ≡ some h
    → Differs k h
    → holds k (delete_at i hs) ≡ holds k hs
unfolding holds delete_at
holds-delete_at k h i [] e d = refl
holds-delete_at k h zero (g ∷ hs) e d = ground (arith, e, d)
holds-delete_at k h (suc i) (g ∷ hs) e d = ap (◌||◌ (g == k)) (holds-delete_at k h i hs e d)

pub holds-member : (k i : ℕ) (hs : List ℕ) → get_elem? hs i ≡ some k → holds k hs ≡ true
unfolding holds
holds-member k i [] e = cc
holds-member k zero (h ∷ hs) e = ground (arith, e)
holds-member k (suc i) (h ∷ hs) e = ground (arith, holds-member k i hs e)
