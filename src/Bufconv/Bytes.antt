-- ===== src/Bufconv/Bytes.antt =====
-- Byte lists as numbers, lowest byte first, and a list seen as the bytes around an offset.
use node_zmq_raft.Prelude.{
  ℕ, zero, suc, ◌+◌, ◌*◌, ◌/◌, ◌%◌, ◌^◌, ◌<◌, ◌≤◌, ◌≡◌, refl, ap, List, [], ◌∷◌, ◌++◌, set, get_or,
  length, arith, ltb, if◌then◌else◌, replicate, ◌-◌, true, false,
}
use native.Mathlib.Nat.{pow-suc}
use native.Mathlib.Numerals.{add-one}

unfoldable pub decode : List ℕ → ℕ
decode [] = 0
decode (b ∷ bs) = b + 256 * decode bs

-- The bytes of `q`, at least one and at most `n`.
unfoldable pub encode : ℕ → ℕ → List ℕ
encode zero q = []
encode (suc n) q = let rest = encode n (q / 256) in (q % 256) ∷ (if ltb q 256 then [] else rest)

pub encode_shrinks : (n q : ℕ) → q < 256 ^ suc n → q / 256 < 256 ^ n
encode_shrinks n q h = omega (arith, pow-suc 256 n)

pub decode-encode : (n q : ℕ) → q < 256 ^ n → decode (encode n q) ≡ q
unfolding decode encode
decode-encode zero q h = omega arith
decode-encode (suc n) q h = ground (arith, decode-encode n (q / 256), encode_shrinks n q h)

pub length-encode-le : (n q : ℕ) → length (encode n q) ≤ n
unfolding encode
length-encode-le zero q = omega arith
length-encode-le (suc n) q = ground (arith, length-encode-le n (q / 256))

module _ {ℓ} {A : Type ℓ} where
  pub set-append :
      (pre : List A) (x v : A) (post : List A)
      → set (pre ++ x ∷ post) (length pre) v ≡ pre ++ v ∷ post
  set-append [] x v post = refl
  set-append (y ∷ pre) x v post = ap (◌∷◌ y) (set-append pre x v post)

  pub get_or-append :
      (pre : List A) (x d : A) (post : List A) → get_or (pre ++ x ∷ post) (length pre) d ≡ x
  get_or-append [] x d post = refl
  get_or-append (y ∷ pre) x d post = get_or-append pre x d post

  -- The same one place on.
  pub set_next :
      (pre : List A) (x y v : A) (post : List A)
      → set (pre ++ x ∷ y ∷ post) (length pre + 1) v ≡ pre ++ x ∷ v ∷ post
  set_next pre x y v post = rw (add-one (length pre)) (go pre)
    where
      go : (p : List A) → set (p ++ x ∷ y ∷ post) (suc (length p)) v ≡ p ++ x ∷ v ∷ post
      go [] = refl
      go (z ∷ p) = ap (◌∷◌ z) (go p)

  pub get_or_next :
      (pre : List A) (x y d : A) (post : List A)
      → get_or (pre ++ x ∷ y ∷ post) (length pre + 1) d ≡ y
  get_or_next pre x y d post = rw (add-one (length pre)) (go pre)
    where
      go : (p : List A) → get_or (p ++ x ∷ y ∷ post) (suc (length p)) d ≡ y
      go [] = refl
      go (z ∷ p) = go p

  pub snoc-append :
      (pre : List A) (x : A) (post : List A) → (pre ++ x ∷ []) ++ post ≡ pre ++ x ∷ post
  snoc-append [] x post = refl
  snoc-append (y ∷ pre) x post = ap (◌∷◌ y) (snoc-append pre x post)

  pub length-snoc : (pre : List A) (x : A) → length (pre ++ x ∷ []) ≡ length pre + 1
  length-snoc [] x = refl
  length-snoc (y ∷ pre) x = omega (arith, length-snoc pre x)

-- `n` bytes of `v`, the lowest first, whatever does not fit left out.
unfoldable pub field : ℕ → ℕ → List ℕ
field zero v = []
field (suc n) v = (v % 256) ∷ field n (v / 256)

pub length-field : (n v : ℕ) → length (field n v) ≡ n
unfolding field
length-field zero v = refl
length-field (suc n) v = ap suc (length-field n (v / 256))

pub decode-field : (n v : ℕ) → v < 256 ^ n → decode (field n v) ≡ v
unfolding decode field
decode-field zero v h = omega arith
decode-field (suc n) v h = omega (arith, decode-field n (v / 256) (encode_shrinks n v h))

pub field-zero : (n : ℕ) → replicate n 0 ≡ field n 0
unfolding field
field-zero zero = refl
field-zero (suc n) = ap (◌∷◌ 0) (field-zero n)

-- Zeros behind the bytes of `v` make a field of it.
pub encode-pad : (n v : ℕ) → encode n v ++ replicate (n - length (encode n v)) 0 ≡ field n v
unfolding encode field
encode-pad zero v = refl
encode-pad (suc n) v = ground (arith, encode-pad n (v / 256), field-zero n)

pub length-encode-bound : (n k v : ℕ) → v < 256 ^ suc k → length (encode n v) ≤ suc k
unfolding encode
length-encode-bound zero k v h = omega arith
length-encode-bound (suc n) zero v h = ground (arith, pow-suc 256 0)
length-encode-bound (suc n) (suc k) v h =
    ground (arith, length-encode-bound n k (v / 256) (encode_shrinks (suc k) v h))

pub encode-small : (n q : ℕ) → ltb q 256 ≡ true → encode (suc n) q ≡ (q % 256) ∷ []
unfolding encode
encode-small n q e = rw e

pub encode-large : (n q : ℕ) → ltb q 256 ≡ false → encode (suc n) q ≡ (q % 256) ∷ encode n (q / 256)
unfolding encode
encode-large n q e = rw e
