-- ===== src/IndexFile.antt =====
-- The log file of lib/common/indexfile.js: its state, what it answers about its entries, and what is
-- read from it. The calls of the operating system are taken to succeed.
pub mod Writing
pub mod Opening
pub mod Entries
pub mod Stored
pub mod Committed
pub mod Spec
pub mod Filling
pub mod Refinement
pub mod Calls
pub mod Fitting
pub mod Vectors
pub mod Reopening
pub mod Pending
pub mod Reading
pub mod Sizes
pub mod Runs
mod Tests
use node_zmq_raft.Prelude.{
  ℕ, zero, suc, ◌+◌, ◌-◌, ◌/◌, ◌%◌, ◌^◌, ◌≡◌, refl, List, [], ◌∷◌, length, ltb, leb, ◌==◌,
  if◌then◌else◌, Bool, true, false, Option, none, some, Result, ok, err, ◌>>=◌,
}
use node_zmq_raft.Prelude.Int.{ℤ, pos, negsuc}
use node_zmq_raft.Table.{slot, put_bytes, slice_bytes}

-- `offsets` is the table in memory, `table` the one in the file; `content` is the file from
-- `position` on, where the data begins.
pub record IndexFile : Type 0 where
  pub index : ℕ
  pub capacity : ℕ
  pub position : ℕ
  pub next_at : ℕ
  pub offsets : List ℕ
  pub table : List ℕ
  pub content : List ℕ

pub data Refusal : Type 0 where
  out_of_bounds : Refusal
  after_next_index : Refusal
  empty_entry : Refusal
  non_linear : Refusal
  not_within_entry : Refusal
  type_mismatch : Refusal
  -- No error of the source: a loop that is not done when its fuel is spent.
  out_of_fuel : Refusal
  sanity_failed : Refusal

-- `Math.min(kMaxLength, 0x3fffffff)`: kMaxLength is nowhere below 2^30 - 1.
abbrev pub max_datasize : ℕ
max_datasize = 1073741823

-- `index -= this.index`, where that is not negative.
unfoldable pub local : IndexFile → ℕ → Option ℕ
local f index = if leb f.index index then some (index - f.index) else none

unfoldable pub includes : IndexFile → ℕ → Bool
unfolding local
includes f index = elim (local f index) [ none ↦ false | some i ↦ ltb i f.next_at ]

unfoldable pub allowed : IndexFile → ℕ → Bool
unfolding local
allowed f index = elim (local f index) [ none ↦ false | some i ↦ ltb i f.capacity ]

-- `index > 0 ? offsets[index - 1] : 0`
abbrev pub before : List ℕ → ℕ → ℕ
before offsets zero = 0
before offsets (suc i) = slot offsets i

unfoldable pub offset_from : IndexFile → Option ℕ → Option ℕ
offset_from f none = none
offset_from f (some i) = if leb i f.next_at then some (f.position + before f.offsets i) else none

unfoldable pub get_byte_offset : IndexFile → ℕ → Option ℕ
unfolding local offset_from
get_byte_offset f index = offset_from f (local f index)

-- The sizes: of a file with increasing offsets, none is negative.
abbrev pub span : List ℕ → ℕ → ℕ → ℕ
span offsets i count = before offsets (i + count) - before offsets i

unfoldable pub size_from : IndexFile → ℕ → Option ℕ → Option ℕ
size_from f n none = none
size_from f n (some i) =
    if leb (i + n) f.next_at then (if n == 0 then some 0 else some (span f.offsets i n)) else none

unfoldable pub get_byte_size : IndexFile → (index count : ℕ) → Option ℕ
unfolding local size_from
get_byte_size f index count = size_from f (count % 2 ^ 32) (local f index)

-- `size > maxlength` after `maxlength >>= 0`; `undefined > maxlength` is false.
unfoldable pub exceeds : Option ℕ → ℕ → Bool
exceeds none maxlength = false
exceeds (some size) maxlength =
    let w = maxlength % 2 ^ 32 in if ltb w (2 ^ 31) then ltb w size else true

-- `while(lo < hi)`, where `above` is hi + 1: the `count` that the loop ends with, or `none` when the
-- fuel is spent before it ends.
unfoldable pub fit_loop : IndexFile → (index maxlength fuel lo above : ℕ) → Option ℕ
unfolding get_byte_size exceeds
fit_loop f index maxlength zero lo above = none
fit_loop f index maxlength (suc fuel) lo above =
    let count = (lo + above) / 2 in
    let big = exceeds (get_byte_size f index count) maxlength in
    let rest =
      fit_loop f index maxlength fuel (if big then lo else count) (if big then count else above) in
    if ltb (suc lo) above then rest else some count

-- What follows the loop.
abbrev pub fit_result : IndexFile → (index maxlength : ℕ) → Option ℕ → Result Refusal ℕ
fit_result f index maxlength none = err out_of_fuel
fit_result f index maxlength (some found) =
    if exceeds (get_byte_size f index found) maxlength then ok 0 else ok found

unfoldable pub count_from : IndexFile → (index count maxlength : ℕ) → Option ℕ → Result Refusal ℕ
unfolding get_byte_size exceeds fit_loop
count_from f index count maxlength none = err out_of_bounds
count_from f index count maxlength (some size) =
    let found = fit_loop f index maxlength (suc count) 1 count in
    if exceeds (some size) maxlength then fit_result f index maxlength found else ok count

unfoldable pub count_entries_fit_size : IndexFile → (index count maxlength : ℕ) → Result Refusal ℕ
unfolding get_byte_size count_from
count_entries_fit_size f index count maxlength =
    count_from f index count maxlength (get_byte_size f index count)

abbrev pub next_index : IndexFile → ℕ
next_index f = f.index + f.next_at

abbrev pub free : IndexFile → ℕ
free f = f.capacity - f.next_at

abbrev pub last_allowed_index : IndexFile → ℕ
last_allowed_index f = f.index + f.capacity - 1

-- `length` bytes of the file from an offset in it.
unfoldable pub read_at : IndexFile → (offset length : ℕ) → List ℕ
unfolding slice_bytes
read_at f offset length = slice_bytes f.content (offset - f.position) (offset - f.position + length)

unfoldable pub read_sized : IndexFile → (offset size : Option ℕ) → Result Refusal (List ℕ)
unfolding read_at
read_sized f offset none = err out_of_bounds
read_sized f none (some size) = if size == 0 then ok [] else err out_of_bounds
read_sized f (some offset) (some size) = if size == 0 then ok [] else ok (read_at f offset size)

unfoldable pub read : IndexFile → (index count : ℕ) → Result Refusal (List ℕ)
unfolding get_byte_offset get_byte_size read_sized
read f index count = read_sized f (get_byte_offset f index) (get_byte_size f index count)

-- The `while(index < stop)` of `splitb`, over `todo` entries.
unfoldable pub split_loop :
    (offsets buffer : List ℕ) (todo index position offset : ℕ) → List (List ℕ)
unfolding slice_bytes
split_loop offsets buffer zero index position offset = []
split_loop offsets buffer (suc todo) index position offset =
    let size = slot offsets index in
    let stop = offset + size - position in
    let rest = split_loop offsets buffer todo (suc index) size stop in
    if ltb (length buffer) stop then [] else slice_bytes buffer offset stop ∷ rest

unfoldable pub split_from :
    IndexFile → (n : ℕ) → (buffer : List ℕ) → ℕ → Option ℕ → Result Refusal (List (List ℕ))
unfolding split_loop
split_from f n buffer offset none = err out_of_bounds
split_from f n buffer offset (some i) =
    if leb (i + n) f.next_at
    then ok (split_loop f.offsets buffer n i (before f.offsets i) offset)
    else err out_of_bounds

unfoldable pub splitb :
    IndexFile → (index count : ℕ) → (buffer : List ℕ) → ℕ → Result Refusal (List (List ℕ))
unfolding local split_from
splitb f index count buffer offset =
    split_from f (count % 2 ^ 32) buffer (offset % 2 ^ 32) (local f index)

unfoldable pub readv : IndexFile → (index count : ℕ) → Result Refusal (List (List ℕ))
unfolding read splitb
readv f index count = read f index count >>= λ buffer. splitb f index count buffer 0

-- A read into a buffer: the buffer and the length read, or the length that does not fit, which the
-- source gives as a negative number.
pub data Placed : Type 0 where
  placed : (buffer : List ℕ) (length : ℕ) → Placed
  too_long : (length : ℕ) → Placed

unfoldable pub place : IndexFile → (buffer : List ℕ) (offset position size : ℕ) → Placed
unfolding read_at put_bytes
place f buffer offset position size =
    if ltb (length buffer) (offset + size)
    then too_long size
    else placed (put_bytes buffer offset (read_at f position size)) size

unfoldable pub readb : IndexFile → (index count : ℕ) → (buffer : List ℕ) → ℕ → Result Refusal Placed
unfolding get_byte_offset get_byte_size place
readb f index count buffer offset = elim (get_byte_size f index count) [
  | none ↦ err out_of_bounds
  | some size ↦ if size == 0 then ok (placed buffer 0) else elim (get_byte_offset f index) [
    | none ↦ err out_of_bounds
    | some position ↦ ok (place f buffer (offset % 2 ^ 32) position size)
  ]
]

-- A position that counts from the end where it is negative: none before the entry.
unfoldable pub from_end : ℕ → ℤ → Option ℕ
from_end size (pos n) = some n
from_end size (negsuc n) = if ltb n size then some (size - suc n) else none

-- A `stop` before the entry leaves nothing to read, as 0 does. `start` and `stop` are 32-bit.
abbrev pub or_zero : Option ℕ → ℕ
or_zero none = 0
or_zero (some n) = n

unfoldable pub read_slice :
    IndexFile → ℕ → (start stop : ℤ) → (buffer : List ℕ) → ℕ → Result Refusal Placed
unfolding get_byte_offset get_byte_size place from_end
read_slice f index start stop buffer offset = elim (get_byte_size f index 1) [
  | none ↦ err out_of_bounds
  | some size ↦ elim (from_end size start) [
    | none ↦ err not_within_entry
    | some from ↦
        let end = or_zero (from_end size stop) in
        if ltb size end
        then err not_within_entry
        else if leb end from
        then ok (placed buffer 0)
        else elim (get_byte_offset f index) [
          | none ↦ err out_of_bounds
          | some position ↦ ok (place f buffer (offset % 2 ^ 32) (from + position) (end - from))
        ]
  ]
]
