-- ===== src/IndexFile/Opening.antt =====
-- A log file on disk: what is created, and what `readIndexFile` of lib/common/indexfile.js reads back.
use node_zmq_raft.Prelude.{
  ℕ, zero, suc, ◌+◌, ◌-◌, ◌*◌, ◌/◌, ◌%◌, ◌^◌, List, [], replicate, leb, ◌==◌, if◌then◌else◌, Bool,
  ◌&&◌, Option, none, some, Result, ok, err,
}
use node_zmq_raft.Table.{slot}
use node_zmq_raft.IndexFile.{IndexFile, Refusal, type_mismatch, sanity_failed}

-- The header of six 32-bit numbers.
pub record Header : Type 0 where
  pub token : ℕ
  pub size : ℕ
  pub version : ℕ
  pub capacity : ℕ
  pub index_low : ℕ
  pub index_high : ℕ

-- What the disk holds of a log file; `position` is where the data begins, behind the last token.
pub record Disk : Type 0 where
  pub header : Header
  pub table : List ℕ
  pub position : ℕ
  pub content : List ℕ

abbrev pub max_capacity : ℕ
max_capacity = 16777215

abbrev pub default_capacity : ℕ
default_capacity = 16384

-- `tokenToUint32('RLOG')`
abbrev pub rlog : ℕ
rlog = 82 + 256 * (76 + 256 * (79 + 256 * 71))

-- The capacity of a new file: index + capacity is a multiple of the capacity asked for.
unfoldable pub new_capacity : Option ℕ → ℕ → ℕ
new_capacity asked index =
    let given : ℕ = elim asked [
      | none ↦ default_capacity
      | some capacity ↦ if capacity == 0 then default_capacity else capacity % 2 ^ 32
    ] in
    given - index % given

abbrev pub new_header : (index capacity : ℕ) → Header
new_header index capacity = record {
  token = rlog;
  size = (16 + 4 * capacity) % 2 ^ 32;
  version = 1;
  capacity = capacity % 2 ^ 32;
  index_low = index % 2 ^ 32;
  index_high = index / 2 ^ 32 % 2 ^ 32;
}

-- `createIndexFile` and the empty table that the constructor makes.
unfoldable pub create_index_file : (index capacity position : ℕ) → IndexFile
create_index_file index capacity position = record {
  index = index;
  capacity = capacity;
  position = position;
  next_at = 0;
  offsets = replicate capacity 0;
  table = replicate capacity 0;
  content = [];
}

-- What is on the disk of a file that is in use.
unfoldable pub disk : IndexFile → Disk
disk f = record {
  header = new_header f.index f.capacity;
  table = f.table;
  position = f.position;
  content = f.content;
}

-- The `for` that finds the next index and checks that the offsets increase.
unfoldable pub scan_offsets : ℕ → List ℕ → (i last : ℕ) → Result Refusal ℕ
scan_offsets zero offsets i last = ok i
scan_offsets (suc left) offsets i last =
    let offset = slot offsets i in
    let rest = scan_offsets left offsets (suc i) offset in
    if offset == 0 then ok i else if leb offset last then err sanity_failed else rest

unfoldable pub is_header : Header → ℕ → Bool
is_header header index =
    (header.token == rlog)
    && (header.size == 24 + 4 * header.capacity - 8)
    && (header.version == 1)
    && (header.index_low == index % 2 ^ 32)
    && (header.index_high == index / 2 ^ 32 % 2 ^ 32)

unfoldable pub read_index_file : Disk → ℕ → Result Refusal IndexFile
unfolding is_header scan_offsets
read_index_file d index =
    if is_header d.header index
    then elim (scan_offsets d.header.capacity d.table 0 0) [
      | err refusal ↦ err refusal
      | ok next_at ↦ ok (record {
        index = index;
        capacity = d.header.capacity;
        position = d.position;
        next_at = next_at;
        offsets = d.table;
        table = d.table;
        content = d.content;
      })
    ]
    else err type_mismatch
