-- ===== src/IndexFile/Reading.antt =====
-- Reading the entries of a log file, lib/common/indexfile.js: `read`, `splitb` and `readv`.
use node_zmq_raft.Prelude.{
  ℕ, zero, suc, ◌+◌, ◌-◌, ◌<◌, ◌≤◌, ◌≡◌, refl, List, length, arith, ◌∙◌, sym, true, false, ◌==◌,
  ltb, ok, ap, Bool-cases, inl, inr, some, ◌++◌, [], ◌∷◌, take, drop, ◌>>=◌, append-nil,
  append_assoc, take-append_at, drop-append_at, le→leb,
}
use node_zmq_raft.Table.{slot, slice_bytes}
use node_zmq_raft.IndexFile.{
  IndexFile, before, local, span, get_byte_offset, get_byte_size, read_at, read, split_loop, splitb,
  readv, size_from, offset_from, read_sized, split_from,
}
use node_zmq_raft.IndexFile.Entries.{IsWritten, entries_of, entry_of, before-le, IsWritten-fewer}
use node_zmq_raft.IndexFile.Committed.{IsCommitted, entries}
use node_zmq_raft.IndexFile.Spec.{length-entries_of, length-slice_bytes}

-- A part of a part of the bytes.
take-take : (k n : ℕ) (xs : List ℕ) → k ≤ n → take k (take n xs) ≡ take k xs
take-take zero n xs h = refl
take-take (suc k) zero xs h = absurd (omega arith)
take-take (suc k) (suc n) [] h = refl
take-take (suc k) (suc n) (x ∷ xs) h = ap (◌∷◌ x) (take-take k n xs (omega arith))

slice-take :
    (m k n : ℕ) (xs : List ℕ) → m + k ≤ n → take k (drop m (take n xs)) ≡ take k (drop m xs)
slice-take zero k n xs h = take-take k n xs (omega arith)
slice-take (suc m) k zero xs h = absurd (omega arith)
slice-take (suc m) k (suc n) [] h = refl
slice-take (suc m) k (suc n) (x ∷ xs) h = slice-take m k n xs (omega arith)

drop-nil : (n : ℕ) → drop {A = ℕ} n [] ≡ []
drop-nil zero = refl
drop-nil (suc n) = refl

drop-drop : (m n : ℕ) (xs : List ℕ) → drop m (drop n xs) ≡ drop (n + m) xs
drop-drop m zero xs = ap (λ k. drop k xs) (omega arith)
drop-drop m (suc n) [] = drop-nil m ∙ sym (drop-nil (suc n + m))
drop-drop m (suc n) (x ∷ xs) = drop-drop m n xs ∙ ap (λ k. drop k (x ∷ xs)) (one_more n m)
  where
    one_more : (a b : ℕ) → suc (a + b) ≡ suc a + b
    one_more a b = omega arith

slice-slice :
    (content : List ℕ) (start stop m n : ℕ)
    → start + n ≤ stop
    → m ≤ n
    → slice_bytes (slice_bytes content start stop) m n ≡ slice_bytes content (start + m) (start + n)
unfolding slice_bytes
slice-slice content start stop m n h k =
    slice-take m (n - m) (stop - start) (drop start content) (omega arith)
    ∙ ap (take (n - m)) (drop-drop m start content)
    ∙ ap (λ size. take size (drop (start + m) content)) (omega arith)

-- `count` entries from one on.
abbrev pub entries_from : (offsets content : List ℕ) (i count : ℕ) → List (List ℕ)
entries_from offsets content i zero = []
entries_from offsets content i (suc count) =
    entry_of offsets content i ∷ entries_from offsets content (suc i) count

-- The bytes of the entries from `first` to `last` split into these entries.
split_loop-entries :
    (offsets content : List ℕ) (first last todo i position offset : ℕ)
    → IsWritten offsets content last
    → first ≤ i
    → i + todo ≡ last
    → position ≡ before offsets i
    → offset ≡ before offsets i - before offsets first
    → split_loop offsets
        (slice_bytes content (before offsets first) (before offsets last))
        todo
        i
        position
        offset
      ≡ entries_from offsets content i todo
unfolding split_loop
split_loop-entries offsets content first last zero i position offset w h e f g = refl
split_loop-entries offsets content first last (suc todo) i position offset w h e f g =
    let buffer = slice_bytes content (before offsets first) (before offsets last) in
    let stop = offset + slot offsets i - position in
    let low : before offsets first ≤ before offsets i =
      before-le offsets i (λ j l. w.increasing j (omega arith)) first h in
    let high : before offsets (suc i) ≤ before offsets last =
      before-le offsets last w.increasing (suc i) (omega arith) in
    let up : before offsets i < slot offsets i = w.increasing i (omega arith) in
    let fits : ltb (length buffer) stop ≡ false = ground (
      arith,
      length-slice_bytes content (before offsets first) (before offsets last)
          (w.held last (omega arith)),
    ) in
    let piece : slice_bytes buffer offset stop ≡ entry_of offsets content i =
      slice-slice content (before offsets first) (before offsets last) offset stop (omega arith)
        (omega arith)
      ∙ ap (λ n. slice_bytes content n (before offsets first + stop)) (omega arith)
      ∙ ap (slice_bytes content (before offsets i)) (omega arith) in
    rw (fits, piece)
      (ap (◌∷◌ (entry_of offsets content i)) (
        split_loop-entries offsets content first last todo (suc i) (slot offsets i) stop w
          (omega arith) (omega arith) refl (omega arith)))

length-entries_from :
    (offsets content : List ℕ) (i count : ℕ) → length (entries_from offsets content i count) ≡ count
length-entries_from offsets content i zero = refl
length-entries_from offsets content i (suc count) =
    ap suc (length-entries_from offsets content (suc i) count)

entries_of-append :
    (offsets content : List ℕ) (i count : ℕ)
    → entries_of offsets content (i + count)
      ≡ entries_of offsets content i ++ entries_from offsets content i count
unfolding entries_of
entries_of-append offsets content i zero =
    ap (entries_of offsets content) (at_zero i) ∙ sym (append-nil (entries_of offsets content i))
  where
    at_zero : (a : ℕ) → a + 0 ≡ a
    at_zero a = omega arith
entries_of-append offsets content i (suc count) =
    ap (entries_of offsets content) (one_more i count)
    ∙ entries_of-append offsets content (suc i) count
    ∙ append_assoc (entries_of offsets content i) (entry_of offsets content i ∷ [])
        (entries_from offsets content (suc i) count)
  where
    one_more : (a b : ℕ) → a + suc b ≡ suc a + b
    one_more a b = omega arith

entries_from-append :
    (offsets content : List ℕ) (i a b : ℕ)
    → entries_from offsets content i (a + b)
      ≡ entries_from offsets content i a ++ entries_from offsets content (i + a) b
entries_from-append offsets content i zero b =
    ap (entries_from offsets content i) (omega arith)
    ∙ ap (λ n. entries_from offsets content n b) (omega arith)
entries_from-append offsets content i (suc a) b =
    ap (entries_from offsets content i) (one_more a b)
    ∙ ap (◌∷◌ (entry_of offsets content i)) (entries_from-append offsets content (suc i) a b)
    ∙ ap
        (λ n.
          (entry_of offsets content i ∷ entries_from offsets content (suc i) a)
          ++ entries_from offsets content n b)
        (moved i a)
  where
    one_more : (a b : ℕ) → suc a + b ≡ suc (a + b)
    one_more a b = omega arith

    moved : (i a : ℕ) → suc i + a ≡ i + suc a
    moved i a = omega arith

-- They are those that the list of all entries has there.
entries_from-eq :
    (offsets content : List ℕ) (i count n : ℕ)
    → i + count ≤ n
    → entries_from offsets content i count ≡ take count (drop i (entries_of offsets content n))
entries_from-eq offsets content i count n h =
    let rest = n - (i + count) in
    let more = entries_from offsets content (i + count) rest in
    sym (
      ap (λ m. take count (drop i (entries_of offsets content m))) (back h)
      ∙ ap (λ all. take count (drop i all)) (entries_of-append offsets content i (count + rest))
      ∙ ap (take count) (
          drop-append_at (entries_of offsets content i)
            (entries_from offsets content i (count + rest)) i (length-entries_of offsets content i))
      ∙ ap (take count) (entries_from-append offsets content i count rest)
      ∙ take-append_at (entries_from offsets content i count) more count
          (length-entries_from offsets content i count))
  where
    back : i + count ≤ n → n ≡ i + (count + (n - (i + count)))
    back h = omega arith

pub local-at : (f : IndexFile) (i : ℕ) → local f (f.index + i) ≡ some i
unfolding local
local-at f i = ground arith

size_from-at :
    (f : IndexFile) (i count : ℕ)
    → i + count ≤ f.next_at
    → size_from f count (some i) ≡ some (span f.offsets i count)
unfolding size_from
size_from-at f i zero h =
    rw (le→leb (i + 0) f.next_at h) (ap some (sym (same (i + 0) i (omega arith))))
  where
    same : (a b : ℕ) → a ≡ b → before f.offsets a - before f.offsets b ≡ 0
    same a b e = ap (λ n. before f.offsets n - before f.offsets b) e ∙ omega arith
size_from-at f i (suc count) h = ground (arith)

pub get_byte_size-at :
    (f : IndexFile) (i count : ℕ)
    → i + count ≤ f.next_at
    → count < 4294967296
    → get_byte_size f (f.index + i) count ≡ some (span f.offsets i count)
unfolding get_byte_size
get_byte_size-at f i count h small =
    ap (λ n. size_from f n (local f (f.index + i))) (omega arith)
    ∙ ap (size_from f count) (local-at f i)
    ∙ size_from-at f i count h

get_byte_offset-at :
    (f : IndexFile) (i : ℕ)
    → i ≤ f.next_at
    → get_byte_offset f (f.index + i) ≡ some (f.position + before f.offsets i)
unfolding get_byte_offset offset_from
get_byte_offset-at f i h = ap (offset_from f) (local-at f i) ∙ ground arith

read_sized-at :
    (f : IndexFile) (i stop : ℕ)
    → before f.offsets i ≤ before f.offsets stop
    → read_sized f
        (some (f.position + before f.offsets i))
        (some (before f.offsets stop - before f.offsets i))
      ≡ ok (slice_bytes f.content (before f.offsets i) (before f.offsets stop))
unfolding read_sized read_at slice_bytes
read_sized-at f i stop h = elim (Bool-cases (before f.offsets stop - before f.offsets i == 0)) [
  | inl empty ↦
      rw empty (ap (λ n. ok (take n (drop (before f.offsets i) f.content))) (nothing empty))
  | inr filled ↦ rw filled (
      ap (λ n. ok (slice_bytes f.content n (n + (before f.offsets stop - before f.offsets i)))) back
      ∙ ap (λ n. ok (slice_bytes f.content (before f.offsets i) n)) forth)
]
  where
    nothing :
        (before f.offsets stop - before f.offsets i == 0) ≡ true
        → 0 ≡ before f.offsets stop - before f.offsets i
    nothing e = ground arith

    back : f.position + before f.offsets i - f.position ≡ before f.offsets i
    back = omega arith

    forth :
        before f.offsets i + (before f.offsets stop - before f.offsets i) ≡ before f.offsets stop
    forth = omega arith

-- The bytes of the entries asked for.
read-at :
    (f : IndexFile) (i count : ℕ)
    → IsCommitted f
    → i + count ≤ f.next_at
    → count < 4294967296
    → read f (f.index + i) count
      ≡ ok (slice_bytes f.content (before f.offsets i) (before f.offsets (i + count)))
unfolding read
read-at f i count c h small =
    ap (λ size. read_sized f (get_byte_offset f (f.index + i)) size)
      (get_byte_size-at f i count h small)
    ∙ ap (λ offset. read_sized f offset (some (span f.offsets i count)))
        (get_byte_offset-at f i (omega arith))
    ∙ read_sized-at f i (i + count) (
        before-le f.offsets (i + count) (IsWritten-fewer (i + count) h c.written).increasing i
          (omega arith))

splitb-at :
    (f : IndexFile) (i count : ℕ)
    → IsCommitted f
    → i + count ≤ f.next_at
    → count < 4294967296
    → splitb f
        (f.index + i)
        count
        (slice_bytes f.content (before f.offsets i) (before f.offsets (i + count)))
        0
      ≡ ok (entries_from f.offsets f.content i count)
unfolding splitb split_from
splitb-at f i count c h small =
    ap (λ n. split_from f n buffer 0 (local f (f.index + i))) (omega arith)
    ∙ ap (split_from f count buffer 0) (local-at f i)
    ∙ rw (le→leb (i + count) f.next_at h) (
        ap ok (
          split_loop-entries f.offsets f.content i (i + count) count i (before f.offsets i) 0
            (IsWritten-fewer (i + count) h c.written) (omega arith) refl refl (omega arith)))
  where
    buffer : List ℕ
    buffer = slice_bytes f.content (before f.offsets i) (before f.offsets (i + count))

-- From a well-formed file, readv gives the entries asked for, where they are all in the file and fewer
-- than 2^32.
pub readv-entries :
    (f : IndexFile) (i count : ℕ)
    → IsCommitted f
    → i + count ≤ f.next_at
    → count < 4294967296
    → readv f (f.index + i) count ≡ ok (take count (drop i (entries f)))
unfolding readv entries
readv-entries f i count c h small =
    ap (λ buffer. buffer >>= λ buffer. splitb f (f.index + i) count buffer 0)
      (read-at f i count c h small)
    ∙ splitb-at f i count c h small
    ∙ ap ok (entries_from-eq f.offsets f.content i count f.next_at h)
