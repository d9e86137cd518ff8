-- ===== src/IndexFile/Entries.antt =====
-- The entries that a log file holds: what its offsets and its bytes stand for, and how one more is
-- added (lib/common/indexfile.js).
use node_zmq_raft.Prelude.{
  ℕ, zero, suc, ◌+◌, ◌<◌, ◌≤◌, ◌≡◌, refl, ap, ◌∙◌, List, [], ◌∷◌, ◌++◌, length, arith,
}
use native.Mathlib.Decide.{dec_le, dec_lt}
use node_zmq_raft.Table.{slot, put_bytes, slice_bytes}
use node_zmq_raft.Table.Contents.{slice-put_before, slice-put_at, length-put_bytes}
use node_zmq_raft.IndexFile.{before, max_datasize}

abbrev pub entry_of : (offsets content : List ℕ) → ℕ → List ℕ
entry_of offsets content i = slice_bytes content (before offsets i) (slot offsets i)

unfoldable pub entries_of : (offsets content : List ℕ) → ℕ → List (List ℕ)
entries_of offsets content zero = []
entries_of offsets content (suc n) = entries_of offsets content n ++ entry_of offsets content n ∷ []

-- The first `count` entries are there: none is empty, and all are within the file and its limit.
pub record IsWritten (offsets content : List ℕ) (count : ℕ) : Type 0 where
  pub increasing : (i : ℕ) → i < count → before offsets i < slot offsets i
  pub small : (i : ℕ) → i ≤ count → before offsets i ≤ max_datasize
  pub held : (i : ℕ) → i ≤ count → before offsets i ≤ length content

-- The first `count` entries are the same.
pub record IsKept (offsets content offsets' content' : List ℕ) (count : ℕ) : Type 0 where
  pub same_offsets : (i : ℕ) → i < count → slot offsets' i ≡ slot offsets i
  pub same_bytes :
      (start stop : ℕ)
      → stop ≤ before offsets count
      → slice_bytes content' start stop ≡ slice_bytes content start stop

pub before-eq :
    (offsets offsets' : List ℕ) (count : ℕ)
    → ((i : ℕ) → i < count → slot offsets' i ≡ slot offsets i)
    → (i : ℕ) → i ≤ count
    → before offsets' i ≡ before offsets i
before-eq offsets offsets' count same zero h = refl
before-eq offsets offsets' count same (suc i) h = same i (omega arith)

pub before-le :
    (offsets : List ℕ) (count : ℕ)
    → ((i : ℕ) → i < count → before offsets i < slot offsets i)
    → (i : ℕ) → i ≤ count
    → before offsets i ≤ before offsets count
before-le offsets zero inc zero h = omega arith
before-le offsets zero inc (suc i) h = absurd (omega arith)
before-le offsets (suc count) inc i h = elim (dec_le i count) [
  | yes less ↦
      omega (
        arith,
        before-le offsets count (λ j l. inc j (omega arith)) i less,
        inc count (omega arith),
      )
  | no more ↦ grind arith
]

pub IsKept-fewer :
    {offsets content offsets' content' : List ℕ} {n : ℕ} (i : ℕ)
    → i ≤ n
    → IsWritten offsets content n
    → IsKept offsets content offsets' content' n
    → IsKept offsets content offsets' content' i
IsKept-fewer {offsets} {n = n} i h w k = record {
  same_offsets = λ j l. k.same_offsets j (omega arith);
  same_bytes = λ a b l. k.same_bytes a b (omega (arith, before-le offsets n w.increasing i h));
}

pub IsKept-trans :
    {o c o' c' o'' c'' : List ℕ} {n : ℕ}
    → IsKept o c o' c' n
    → IsKept o' c' o'' c'' n
    → IsKept o c o'' c'' n
IsKept-trans {o} {o' = o'} {n = n} k l = record {
  same_offsets = λ j h. l.same_offsets j h ∙ k.same_offsets j h;
  same_bytes = λ a b h.
      l.same_bytes a b (omega (arith, before-eq o o' n k.same_offsets n)) ∙ k.same_bytes a b h;
}

pub IsWritten-same :
    (offsets offsets' content : List ℕ) (n : ℕ)
    → ((i : ℕ) → i < n → slot offsets' i ≡ slot offsets i)
    → IsWritten offsets content n
    → IsWritten offsets' content n
IsWritten-same offsets offsets' content n same w = record {
  increasing =
      λ j l. omega (arith, same j l, before-eq offsets offsets' n same j, w.increasing j l);
  small = λ j l. omega (arith, before-eq offsets offsets' n same j l, w.small j l);
  held = λ j l. omega (arith, before-eq offsets offsets' n same j l, w.held j l);
}

pub IsWritten-fewer :
    {offsets content : List ℕ} {n : ℕ} (i : ℕ)
    → i ≤ n
    → IsWritten offsets content n
    → IsWritten offsets content i
IsWritten-fewer i h w = record {
  increasing = λ j l. w.increasing j (omega arith);
  small = λ j l. w.small j (omega arith);
  held = λ j l. w.held j (omega arith);
}

-- Entries that are kept are read as before.
pub entries_of-IsKept :
    {offsets content offsets' content' : List ℕ} (n : ℕ)
    → IsWritten offsets content n
    → IsKept offsets content offsets' content' n
    → entries_of offsets' content' n ≡ entries_of offsets content n
unfolding entries_of
entries_of-IsKept zero w k = refl
entries_of-IsKept {offsets} {content} {offsets'} {content'} (suc n) w k =
    ap (λ all. all ++ entry_of offsets' content' n ∷ [])
      (entries_of-IsKept n (IsWritten-fewer n (omega arith) w) (IsKept-fewer n (omega arith) w k))
    ∙ ap (λ entry. entries_of offsets content n ++ entry ∷ []) same
  where
    same : entry_of offsets' content' n ≡ entry_of offsets content n
    same =
        ap (λ a. slice_bytes content' a (slot offsets' n))
          (before-eq offsets offsets' (suc n) k.same_offsets n (omega arith))
        ∙ ap (slice_bytes content' (before offsets n)) (k.same_offsets n (omega arith))
        ∙ k.same_bytes (before offsets n) (slot offsets n) (omega arith)

-- One more entry, written behind the first `count`.
module _ (offsets content : List ℕ) (count : ℕ) (bytes offsets' : List ℕ)
    (written : IsWritten offsets content count) (filled : 0 < length bytes)
    (fits : before offsets count + length bytes ≤ max_datasize)
    (others : (i : ℕ) → i < count → slot offsets' i ≡ slot offsets i)
    (marked : slot offsets' count ≡ before offsets count + length bytes) where
  open written use {held, small, increasing}

  first : before offsets' count ≡ before offsets count
  first = before-eq offsets offsets' count others count (omega arith)

  pub IsKept-entry :
      IsKept offsets content offsets' (put_bytes content (before offsets count) bytes) count
  IsKept-entry = record {
    same_offsets = others;
    same_bytes = λ a b h.
        slice-put_before content bytes (before offsets count) a b h (held count (omega arith));
  }

  pub entry_of-entry :
      entry_of offsets' (put_bytes content (before offsets count) bytes) count ≡ bytes
  entry_of-entry =
      rw (first, marked)
        (slice-put_at content bytes (before offsets count) (held count (omega arith)))

  long :
      before offsets count + length bytes ≤ length (put_bytes content (before offsets count) bytes)
  long = length-put_bytes content bytes (before offsets count) (held count (omega arith))

  pub IsWritten-entry :
      IsWritten offsets' (put_bytes content (before offsets count) bytes) (suc count)
  IsWritten-entry = record {
    increasing = λ i h. elim (dec_lt i count) [
      | yes less ↦
          omega (arith, others i less, before-eq offsets offsets' count others i, increasing i less)
      | no more ↦ grind (arith, first, marked, filled)
    ];
    small = λ i h. elim (dec_le i count) [
      | yes less ↦ omega (arith, before-eq offsets offsets' count others i less, small i less)
      | no more ↦ grind (arith, marked)
    ];
    held = λ i h. elim (dec_le i count) [
      | yes less ↦ omega (
        arith,
        before-eq offsets offsets' count others i less,
        before-le offsets count increasing i less,
        long,
      )
      | no more ↦ grind (arith, marked, long)
    ];
  }
