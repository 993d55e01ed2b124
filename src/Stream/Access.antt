-- ===== src/Stream/Access.antt =====
-- The checks and the copies of a stream that has the invariant, where they succeed.
use h1z1_server.Base.{
  fault, ℕ, ◌+◌, ◌≤◌, ◌<◌, ◌≡◌, ◌≢◌, true, false, some, List, ◌++◌, length, take, drop, arith, done,
  length-append, length-take, length-drop, minus_one,
}
use h1z1_server.Stream.Buffer.{Stream, contents, store, load, safety_check}
use h1z1_server.Stream.Valid.{IsValid}

-- A block with `bytes` written over it from `at` on.
abbrev pub overwritten : List ℕ → ℕ → List ℕ → List ℕ
overwritten b at bytes = take at b ++ (bytes ++ drop (at + length bytes) b)

pub length-overwritten :
    (b : List ℕ) (at : ℕ) (bytes : List ℕ)
    → at + length bytes ≤ length b
    → length (overwritten b at bytes) ≡ length b
length-overwritten b at bytes h = omega (
  arith,
  length-append (take at b) (bytes ++ drop (at + length bytes) b),
  length-append bytes (drop (at + length bytes) b),
  length-take at b (omega arith),
  length-drop (at + length bytes) b,
)

module _ (s : Stream) (v : IsValid s) where
  pub safety_check-index : 0 < s.buffer_size → safety_check s minus_one ≡ done (s.idx, true)
  unfolding safety_check
  safety_check-index h = ground (arith, v.sized, v.inside, v.small)

  pub safety_check-start :
      (start : ℕ)
      → 0 < s.buffer_size
      → start ≢ minus_one
      → safety_check s start ≡ done (start, false)
  unfolding safety_check
  safety_check-start start h ne = ground (arith, v.sized, v.inside, v.small)

  pub load-take :
      (at n : ℕ)
      → 0 < s.buffer_size
      → at + n ≤ s.buffer_size
      → load s at n ≡ done (take n (drop at (contents s)))
  unfolding load
  load-take at n pos h = ground (arith, v.sized, v.small)

  pub store-overwritten :
      (at : ℕ) (bytes : List ℕ)
      → 0 < s.buffer_size
      → at + length bytes ≤ s.buffer_size
      → store s at bytes ≡ done (record s { buffer = some (overwritten (contents s) at bytes) })
  unfolding store
  store-overwritten at bytes pos h = ground (arith, v.sized, v.small)

-- A copy past the end of the block.
pub store-fault :
    (s : Stream) (at : ℕ) (bytes : List ℕ)
    → IsValid s
    → s.buffer_size < at + length bytes
    → store s at bytes ≡ fault
unfolding store
store-fault s at bytes v h = ground (arith, v.sized)

pub load-fault : (s : Stream) (at n : ℕ) → IsValid s → s.buffer_size < at + n → load s at n ≡ fault
unfolding load
load-fault s at n v h = ground (arith, v.sized)
