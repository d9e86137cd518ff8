-- ===== src/Table/Contents.antt =====
-- What is read after a positional write of bytes.
use node_zmq_raft.Table.{put_bytes, slice_bytes}
use node_zmq_raft.Prelude.{
  ℕ, zero, suc, ◌+◌, ◌-◌, ◌≤◌, ◌≡◌, refl, ap, List, [], ◌∷◌, ◌++◌, length, take, drop, replicate,
  arith, append_assoc, take-append-drop, ◌∙◌, sym, length-append, length-take, take-append_at,
  drop-append_at,
}

pub take-append_left {ℓ} :
    {A : Type ℓ} (n : ℕ) (xs ys : List A) → n ≤ length xs → take n (xs ++ ys) ≡ take n xs
take-append_left zero xs ys h = refl
take-append_left (suc n) [] ys h = absurd (omega arith)
take-append_left (suc n) (x ∷ xs) ys h = ap (◌∷◌ x) (take-append_left n xs ys (omega arith))

nothing : (n : ℕ) → 0 - n ≡ 0
nothing n = omega arith

slice-append :
    (xs ys : List ℕ) (start stop : ℕ)
    → stop ≤ length xs
    → slice_bytes (xs ++ ys) start stop ≡ slice_bytes xs start stop
unfolding slice_bytes
slice-append xs ys zero stop h = take-append_left (stop - 0) xs ys (omega arith)
slice-append [] ys (suc start) zero h =
    ap (λ n. take n (drop (suc start) ys)) (nothing (suc start))
    ∙ sym (ap (λ n. take n (drop (suc start) [])) (nothing (suc start)))
slice-append [] ys (suc start) (suc stop) h = absurd (omega arith)
slice-append (x ∷ xs) ys (suc start) zero h =
    ap (λ n. take n (drop (suc start) ((x ∷ xs) ++ ys))) (nothing (suc start))
    ∙ sym (ap (λ n. take n (drop (suc start) (x ∷ xs))) (nothing (suc start)))
slice-append (x ∷ xs) ys (suc start) (suc stop) h =
    ap (λ n. take n (drop start (xs ++ ys))) (both stop start)
    ∙ slice-append xs ys start stop (omega arith)
    ∙ sym (ap (λ n. take n (drop start xs)) (both stop start))
  where
    both : (a b : ℕ) → suc a - suc b ≡ a - b
    both a b = omega arith

put_bytes-split :
    (content bytes : List ℕ) (position : ℕ)
    → put_bytes content position bytes
      ≡ take position content
        ++ (replicate (position - length content) 0
            ++ (bytes ++ drop (position + length bytes) content))
unfolding put_bytes
put_bytes-split content bytes position = simp append_assoc

put_bytes-inside :
    (content bytes : List ℕ) (position : ℕ)
    → position ≤ length content
    → put_bytes content position bytes
      ≡ take position content ++ (bytes ++ drop (position + length bytes) content)
put_bytes-inside content bytes position h =
    put_bytes-split content bytes position
    ∙ ap
        (λ n.
          take position content
          ++ (replicate n 0 ++ (bytes ++ drop (position + length bytes) content)))
        (no_gap (position) (length content) h)
  where
    no_gap : (a b : ℕ) → a ≤ b → a - b ≡ 0
    no_gap a b h = omega arith

length-take_inside : (content : List ℕ) (n : ℕ) → n ≤ length content → length (take n content) ≡ n
length-take_inside content n h = omega (arith, length-take n content)

pub slice-put_before :
    (content bytes : List ℕ) (position start stop : ℕ)
    → stop ≤ position
    → position ≤ length content
    → slice_bytes (put_bytes content position bytes) start stop ≡ slice_bytes content start stop
slice-put_before content bytes position start stop h k =
    let front = take position content in
    ap (λ all. slice_bytes all start stop) (put_bytes-inside content bytes position k)
    ∙ slice-append front _ start stop (omega (arith, length-take_inside content position k))
    ∙ sym (
        slice-append front (drop position content) start stop
          (omega (arith, length-take_inside content position k)))
    ∙ ap (λ all. slice_bytes all start stop) (take-append-drop position content)

pub slice-put_at :
    (content bytes : List ℕ) (position : ℕ)
    → position ≤ length content
    → slice_bytes (put_bytes content position bytes) position (position + length bytes) ≡ bytes
unfolding slice_bytes
slice-put_at content bytes position h =
    let behind = drop (position + length bytes) content in
    ap (λ all. take (position + length bytes - position) (drop position all))
      (put_bytes-inside content bytes position h)
    ∙ ap (take (position + length bytes - position)) (
        drop-append_at (take position content) (bytes ++ behind) position
          (length-take_inside content position h))
    ∙ take-append_at bytes behind (position + length bytes - position) (omega arith)

pub length-put_bytes :
    (content bytes : List ℕ) (position : ℕ)
    → position ≤ length content
    → position + length bytes ≤ length (put_bytes content position bytes)
length-put_bytes content bytes position h =
    let behind = drop (position + length bytes) content in
    rw
      (
        put_bytes-inside content bytes position h,
        length-append (take position content) (bytes ++ behind),
        length-append bytes behind,
      )
      (omega (arith, length-take_inside content position h))
