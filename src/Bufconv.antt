-- ===== src/Bufconv.antt =====
-- lib/utils/bufconv.js: integers of up to 53 bits in a variable number of bytes, lowest first.
-- A buffer is the list of its bytes. Doubles are exact here: quotients by powers of 256 lose no
-- bit that the code looks at, and the sums stay below 2 ^ 53 or are refused as too large.
pub mod Bytes
pub mod Unsigned
pub mod RoundTrip
pub mod Positive
pub mod Signed
pub mod SignedTrip
mod Tests
use node_zmq_raft.Prelude.{
  ℕ, zero, suc, ◌+◌, ◌-◌, ◌*◌, ◌/◌, ◌%◌, ◌^◌, min, List, Option, none, some, set, get_or, length,
  ltb, leb, if◌then◌else◌, Result, ok, err, ◌>>=◌, ◌>>◌, ◌==◌, ◌&&◌, not,
}
use node_zmq_raft.Prelude.Int.{ℤ, pos, negsuc, sub_ℕ}

pub data Error : Type 0 where
  above_maximum below_minimum : Error

abbrev pub max_allowed_integer : ℕ
max_allowed_integer = 2 ^ 53 - 1

-- The offset behind the last byte that may be touched, `limit + 1` in the source: the buffer's
-- end, or `stop >> 0` if that is smaller. A negative `stop >> 0` leaves no byte, as 0 does.
abbrev pub end_of : ℕ → Option ℕ → ℕ
end_of len none = len
end_of len (some stop) = let w = stop % 2 ^ 32 in min len (if ltb w (2 ^ 31) then w else 0)

-- `while (offset < limit) { buffer[++offset] = v = value / mul; if (v < 0x100) break; ... }`, with
-- the rounds that are left.
unfoldable pub write_quotients : ℕ → ℕ → ℕ → List ℕ → ℕ → List ℕ × ℕ
write_quotients zero value mul buffer offset = (buffer, offset)
write_quotients (suc n) value mul buffer offset =
    let v = value / mul in
    let buffer' = set buffer (offset + 1) (v % 256) in
    let rest = write_quotients n value (mul * 256) buffer' (offset + 1) in
    if ltb v 256 then (buffer', offset + 1) else rest

-- `while (offset < limit) buffer[++offset] = 0`
unfoldable pub zero_fill : ℕ → List ℕ → ℕ → List ℕ × ℕ
zero_fill zero buffer offset = (buffer, offset)
zero_fill (suc n) buffer offset = zero_fill n (set buffer (offset + 1) 0) (offset + 1)

unfoldable pub pad_to : Option ℕ → ℕ → List ℕ × ℕ → List ℕ × ℕ
unfolding zero_fill
pad_to none limit (buffer, offset) = (buffer, offset)
pad_to (some stop) limit (buffer, offset) = zero_fill (limit - offset) buffer offset

unfoldable pub write_buf_uint_le : ℕ → List ℕ → ℕ → Option ℕ → Result Error (List ℕ × ℕ)
unfolding write_quotients pad_to
write_buf_uint_le value buffer offset₀ stop =
    let offset = offset₀ % 2 ^ 32 in
    let limit = end_of (length buffer) stop - 1 in
    if ltb max_allowed_integer value
    then err above_maximum
    else if leb (end_of (length buffer) stop) offset
    then ok (buffer, offset)
    else let buffer' = set buffer offset (value % 256) in
      let more = write_quotients (limit - offset) value 256 buffer' offset in
      let (buffer'', last) =
        pad_to stop limit (if leb 256 value then more else (buffer', offset)) in
      ok (buffer'', last + 1)

-- `while (offset < limit) val += buffer[++offset] * (mul *= 0x100)`
unfoldable pub read_more : ℕ → List ℕ → ℕ → ℕ → ℕ → ℕ
read_more zero buffer offset val mul = val
read_more (suc n) buffer offset val mul =
    read_more n buffer (offset + 1) (val + get_or buffer (offset + 1) 0 * (mul * 256)) (mul * 256)

unfoldable pub read_buf_uint_le : List ℕ → ℕ → Option ℕ → Result Error (Option ℕ)
unfolding read_more
read_buf_uint_le buffer offset₀ stop =
    let offset = offset₀ % 2 ^ 32 in
    let limit = end_of (length buffer) stop - 1 in
    let val = read_more (limit - offset) buffer offset (get_or buffer offset 0) 1 in
    if leb (end_of (length buffer) stop) offset
    then ok none
    else if ltb max_allowed_integer val
    then err above_maximum
    else ok (some val)

-- The same loop in `writeBufIntLE`, which looks at the last quotient `v` afterwards.
unfoldable pub write_positive : ℕ → ℕ → ℕ → ℕ → List ℕ → ℕ → List ℕ × ℕ × ℕ
write_positive zero value mul v buffer offset = (buffer, offset, v)
write_positive (suc n) value mul v₀ buffer offset =
    let v = value / mul in
    let buffer' = set buffer (offset + 1) (v % 256) in
    let rest = write_positive n value (mul * 256) v buffer' (offset + 1) in
    if ltb v 256 then (buffer', offset + 1, v) else rest

-- The loop for the value -m. `q` is |v| without its fraction, of which the code reads the low byte
-- to learn whether the bytes below were all 0; `v / mul >> 0` cuts towards 0, and `sub` mends that.
unfoldable pub write_negative : ℕ → ℕ → ℕ → ℕ → ℕ → List ℕ → ℕ → List ℕ × ℕ
write_negative zero m mul q sub buffer offset = (buffer, offset)
write_negative (suc n) m mul q₀ sub₀ buffer offset =
    let sub = if sub₀ == 0 && not (q₀ % 256 == 0) then 1 else sub₀ in
    let q = m / mul in
    let buffer' = set buffer (offset + 1) ((512 - q % 256 - sub) % 256) in
    let rest = write_negative n m (mul * 256) q sub buffer' (offset + 1) in
    if leb m (128 * mul) then (buffer', offset + 1) else rest

-- `if (v >= 0x80 && offset < limit) buffer[++offset] = 0`
unfoldable pub pad_sign : ℕ → List ℕ × ℕ × ℕ → List ℕ × ℕ
pad_sign limit (buffer, offset, v) =
    if leb 128 v && ltb offset limit
    then (set buffer (offset + 1) 0, offset + 1)
    else (buffer, offset)

-- `buffer[offset] = value` and what follows it, up to the padding.
unfoldable pub write_sign_bytes : ℤ → ℕ → List ℕ → ℕ → List ℕ × ℕ
unfolding write_positive write_negative pad_sign
write_sign_bytes (pos value) limit buffer offset =
    let buffer' = set buffer offset (value % 256) in
    let more = write_positive (limit - offset) value 256 value buffer' offset in
    pad_sign limit (if leb 256 value then more else (buffer', offset, value))
write_sign_bytes (negsuc k) limit buffer offset =
    let buffer' = set buffer offset ((256 - suc k % 256) % 256) in
    let more = write_negative (limit - offset) (suc k) 256 (suc k) 0 buffer' offset in
    if ltb 128 (suc k) then more else (buffer', offset)

-- The two range checks at the head of `writeBufIntLE`.
unfoldable pub check_range : ℤ → Result Error (Unit {0})
check_range (pos n) = if ltb max_allowed_integer n then err above_maximum else ok tt
check_range (negsuc k) = if ltb max_allowed_integer (suc k) then err below_minimum else ok tt

unfoldable pub write_buf_int_le : ℤ → List ℕ → ℕ → Option ℕ → Result Error (List ℕ × ℕ)
unfolding pad_to
write_buf_int_le value buffer offset₀ stop = do
  check_range value
  let offset = offset₀ % 2 ^ 32
  let limit = end_of (length buffer) stop - 1
  let (buffer', last) = pad_to stop limit (write_sign_bytes value limit buffer offset)
  if leb (end_of (length buffer) stop) offset then ok (buffer, offset) else ok (buffer', last + 1)

-- `while (offset < limit) { val += buffer[offset++] * mul; mul *= 0x100; }`
unfoldable pub read_low : ℕ → List ℕ → ℕ → ℕ → ℕ → ℕ × ℕ × ℕ
read_low zero buffer offset val mul = (val, mul, offset)
read_low (suc n) buffer offset val mul =
    read_low n buffer (offset + 1) (val + get_or buffer offset 0 * mul) (mul * 256)

-- The last byte counts from -128.
unfoldable pub add_sign : ℕ → ℕ → ℕ → Result Error (Option ℤ)
add_sign val mul sign =
    let z = sub_ℕ (val + sign * mul) (if leb 128 sign then mul * 256 else 0) in
    do check_range z; ok (some z)

unfoldable pub read_buf_int_le : List ℕ → ℕ → Option ℕ → Result Error (Option ℤ)
unfolding read_low
read_buf_int_le buffer offset₀ stop =
    let offset = offset₀ % 2 ^ 32 in
    let limit = end_of (length buffer) stop - 1 in
    let (val, mul, last) = read_low (limit - offset) buffer offset 0 1 in
    let number = add_sign val mul (get_or buffer last 0) in
    if leb (end_of (length buffer) stop) offset then ok none else number
