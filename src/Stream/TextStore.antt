-- ===== src/Stream/TextStore.antt =====
-- What `WriteString` stores into a block that is large enough, and into one that is not.
use h1z1_server.Base.{
  ◌&&◌, ℕ, ◌+◌, ◌-◌, ◌≤◌, ◌<◌, ◌≡◌, refl, sym, ◌∙◌, ap, ap₂, Bool, true, false, List, [], ◌∷◌, ◌++◌,
  length, take, drop, arith, done, fault, le_bytes, length-le_bytes, length-append, drop-add, add32,
  some, ◌>>=◌, >>=_assoc,
}
use mathlib.Core.List.{append_assoc}
use h1z1_server.Stream.Buffer.{Stream, contents, store, advance}
use h1z1_server.Stream.Valid.{IsValid}
use h1z1_server.Stream.Access.{overwritten, length-overwritten, store-overwritten, store-fault}
use h1z1_server.Stream.Appends.{written-overwritten}
use h1z1_server.Stream.Text.{
  StringInterpretMode, until_null_term, given_size, given_size_null_term, write_narrow,
}

-- Two copies one behind the other are one.
overwritten-append :
    (b : List ℕ) (at : ℕ) (xs ys : List ℕ)
    → at + length xs + length ys ≤ length b
    → overwritten (overwritten b at xs) (at + length xs) ys ≡ overwritten b at (xs ++ ys)
overwritten-append b at xs ys h =
    ap₂ (λ (p q : List ℕ). p ++ (ys ++ q)) cut.0 behind
    ∙ append_assoc (take at b) xs (ys ++ drop (at + length (xs ++ ys)) b)
    ∙ ap (◌++◌ (take at b)) (sym (append_assoc xs ys (drop (at + length (xs ++ ys)) b)))
  where
    cut :
        (take (at + length xs) (overwritten b at xs) ≡ take at b ++ xs)
        × (drop (at + length xs) (overwritten b at xs) ≡ drop (at + length xs) b)
    cut = written-overwritten b at xs (omega arith)

    sum : at + length xs + length ys ≡ at + length (xs ++ ys)
    sum = omega (arith, length-append xs ys)

    behind :
        drop (at + length xs + length ys) (overwritten b at xs) ≡ drop (at + length (xs ++ ys)) b
    behind =
        drop-add (at + length xs) (length ys) (overwritten b at xs)
        ∙ ap (drop (length ys)) cut.1
        ∙ sym (drop-add (at + length xs) (length ys) b)
        ∙ ap (λ (i : ℕ). drop i b) sum

store-store :
    (s : Stream) (at : ℕ) (xs ys : List ℕ)
    → IsValid s
    → 0 < s.buffer_size
    → at + length xs + length ys ≤ s.buffer_size
    → (store s at xs >>= λ t. store t (at + length xs) ys)
      ≡ done (record s { buffer = some (overwritten (contents s) at (xs ++ ys)) })
store-store s at xs ys v pos h = rw (store-overwritten s v at xs pos (omega arith)) (
    store-overwritten t valid (at + length xs) ys pos (omega arith)
    ∙ ap (λ (b : List ℕ). done (record s { buffer = some b }))
        (overwritten-append (contents s) at xs ys (omega (arith, v.sized))))
  where
    t : Stream
    t = record s { buffer = some (overwritten (contents s) at xs) }

    valid : IsValid t
    valid = record {
      sized = length-overwritten (contents s) at xs (omega (arith, v.sized)) ∙ v.sized;
      small = v.small;
      inside = v.inside;
    }

-- A size word and what stands behind it, as the sized modes copy them.
pub sized-overwritten :
    (s : Stream) (n : ℕ) (body : List ℕ)
    → IsValid s
    → 0 < s.buffer_size
    → s.idx + (length body + 4) ≤ s.buffer_size
    → (store s s.idx (le_bytes 4 n) >>= λ t.
        store t (s.idx + 4) body >>= λ u. done (advance u true (add32 s.idx (length body + 4))))
      ≡ done (record s {
        buffer = some (overwritten (contents s) s.idx (le_bytes 4 n ++ body));
        idx = s.idx + (length body + 4);
      })
unfolding advance
sized-overwritten s n body v pos h =
    >>=_assoc (store s s.idx (le_bytes 4 n)) (λ t. store t (s.idx + 4) body)
      (λ u. done (advance u true (add32 s.idx (length body + 4))))
    ∙ rw (
      rw (length-le_bytes 4 n) at (store-store s s.idx (le_bytes 4 n) body v pos enough),
      no_wrap,
    )
  where
    enough : s.idx + length (le_bytes 4 n) + length body ≤ s.buffer_size
    enough = omega (arith, h, length-le_bytes 4 n)

    no_wrap : add32 s.idx (length body + 4) ≡ s.idx + (length body + 4)
    no_wrap = omega (arith, h, v.small)

pub &&-false : (b : Bool) → (b && false) ≡ false
&&-false true = refl
&&-false false = refl

-- What each mode puts into the block, apart from the code.
unfoldable pub encode_string : StringInterpretMode → List ℕ → List ℕ
encode_string until_null_term str = str ++ 0 ∷ []
encode_string given_size str = le_bytes 4 (length str) ++ str
encode_string given_size_null_term str = le_bytes 4 (length str) ++ (str ++ 0 ∷ [])

-- The copies of a mode, where they fit.
pub write_narrow-overwritten :
    (s : Stream) (str : List ℕ) (mode : StringInterpretMode)
    → IsValid s
    → 0 < s.buffer_size
    → s.idx + length (encode_string mode str) ≤ s.buffer_size
    → write_narrow s str mode (s.idx, true)
      ≡ done (record s {
        buffer = some (overwritten (contents s) s.idx (encode_string mode str));
        idx = s.idx + length (encode_string mode str);
      })
unfolding write_narrow encode_string advance
write_narrow-overwritten s str until_null_term v pos h =
    rw (store-overwritten s v s.idx (str ++ 0 ∷ []) pos h, no_wrap)
  where
    no_wrap : add32 s.idx (length (str ++ 0 ∷ [])) ≡ s.idx + length (str ++ 0 ∷ [])
    no_wrap = omega (arith, h, v.small)
write_narrow-overwritten s str given_size v pos h =
    sized-overwritten s (length str) str v pos (omega (arith, h, size))
    ∙ ap
        (λ (i : ℕ). done (record s {
          buffer = some (overwritten (contents s) s.idx (le_bytes 4 (length str) ++ str));
          idx = i;
        }))
        (omega (arith, size))
  where
    size : length (le_bytes 4 (length str) ++ str) ≡ length str + 4
    size =
        omega (arith, length-append (le_bytes 4 (length str)) str, length-le_bytes 4 (length str))
write_narrow-overwritten s str given_size_null_term v pos h = rw minus (
    sized-overwritten s (length str) (str ++ 0 ∷ []) v pos (omega (arith, h, size))
    ∙ ap
        (λ (i : ℕ). done (record s {
          buffer =
              some (overwritten (contents s) s.idx (le_bytes 4 (length str) ++ (str ++ 0 ∷ [])));
          idx = i;
        }))
        (omega (arith, size)))
  where
    size : length (le_bytes 4 (length str) ++ (str ++ 0 ∷ [])) ≡ length (str ++ 0 ∷ []) + 4
    size = omega (
      arith,
      length-append (le_bytes 4 (length str)) (str ++ 0 ∷ []),
      length-le_bytes 4 (length str),
    )

    minus : length (str ++ 0 ∷ []) - 1 ≡ length str
    minus = omega (arith, length-append str (0 ∷ []))

-- With space for the size and the characters alone, the terminator has none.
pub write_narrow-fault :
    (s : Stream) (str : List ℕ)
    → IsValid s
    → s.idx + (length str + 4) ≡ s.buffer_size
    → write_narrow s str given_size_null_term (s.idx, true) ≡ fault
unfolding write_narrow
write_narrow-fault s str v exact = rw (
  store-overwritten s v s.idx head (omega (arith, exact)) head_fits,
  store-fault t (s.idx + 4) (str ++ 0 ∷ []) valid beyond,
)
  where
    head : List ℕ
    head = le_bytes 4 (length (str ++ 0 ∷ []) - 1)

    head_fits : s.idx + length head ≤ s.buffer_size
    head_fits = omega (arith, exact, length-le_bytes 4 (length (str ++ 0 ∷ []) - 1))

    t : Stream
    t = record s { buffer = some (overwritten (contents s) s.idx head) }

    valid : IsValid t
    valid = record {
      sized =
          length-overwritten (contents s) s.idx head (omega (arith, head_fits, v.sized)) ∙ v.sized;
      small = v.small;
      inside = v.inside;
    }

    beyond : s.buffer_size < s.idx + 4 + length (str ++ 0 ∷ [])
    beyond = omega (arith, exact, length-append str (0 ∷ []))
