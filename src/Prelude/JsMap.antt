-- ===== src/Prelude/JsMap.antt =====
-- JavaScript's `Map` with string keys, in insertion order: `set` on a key that is there keeps its
-- place, and on a new key goes to the end.
use Prim.Native.Nat.{suc}
use Prim.Native.String.{String}
use mathlib.Core.Path.{◌≡◌, refl}
use mathlib.Core.Bool.{Bool, true, false}
use mathlib.Core.Option.{Option, none, some}
use mathlib.Core.List.{List, [], ◌∷◌}
use native.Mathlib.Omega.{arith}
use text.Mathlib.Text.{◌==◌ as str_eq}
use text.Mathlib.TextEquality.{eq_iff}
use node_zmq_raft.Prelude.Tests.{if◌then◌else◌}
use node_zmq_raft.Prelude.Lists.{length}

abbrev pub same : String → String → Bool
same a b = str_eq a b

abbrev pub JsMap {ℓ} : Type ℓ → Type ℓ
JsMap V = List (String × V)

module _ {ℓ} {V : Type ℓ} where
  unfoldable pub get : JsMap V → String → Option V
  get [] k = none
  get ((j, v) ∷ m) k = if same j k then some v else get m k

  unfoldable pub has : JsMap V → String → Bool
  has [] k = false
  has ((j, v) ∷ m) k = if same j k then true else has m k

  unfoldable pub set : JsMap V → String → V → JsMap V
  set [] k v = (k, v) ∷ []
  set ((j, w) ∷ m) k v = if same j k then (j, v) ∷ m else (j, w) ∷ set m k v

  unfoldable pub delete : JsMap V → String → JsMap V
  delete [] k = []
  delete ((j, w) ∷ m) k = if same j k then m else (j, w) ∷ delete m k

  pub get-set :
      (m : JsMap V) (k j : String) (v : V)
      → get (set m k v) j ≡ (if same k j then some v else get m j)
  unfolding get set
  get-set [] k j v = refl
  get-set ((i, w) ∷ m) k j v = ground (arith, eq_iff k j, eq_iff i k, eq_iff i j, get-set m k j v)

  pub has-set :
      (m : JsMap V) (k j : String) (v : V)
      → has (set m k v) j ≡ (if same k j then true else has m j)
  unfolding has set
  has-set [] k j v = refl
  has-set ((i, w) ∷ m) k j v = ground (arith, eq_iff k j, eq_iff i k, eq_iff i j, has-set m k j v)

  pub length-set :
      (m : JsMap V) (k : String) (v : V)
      → length (set m k v) ≡ (if has m k then length m else suc (length m))
  unfolding has set
  length-set [] k v = refl
  length-set ((i, w) ∷ m) k v = ground (arith, length-set m k v)

  -- No key twice: what a JavaScript map always satisfies.
  abbrev pub Distinct : JsMap V → Type 0
  Distinct [] = Unit {0}
  Distinct ((k, v) ∷ m) = (has m k ≡ false) × Distinct m

  pub set-Distinct : (m : JsMap V) (k : String) (v : V) → Distinct m → Distinct (set m k v)
  unfolding set has
  set-Distinct [] k v d = (refl, tt)
  set-Distinct ((i, w) ∷ m) k v d =
      ground (arith, eq_iff i k, eq_iff k i, has-set m k i v, set-Distinct m k v d.1)

  pub has-delete :
      (m : JsMap V) (k j : String)
      → Distinct m
      → has (delete m k) j ≡ (if same k j then false else has m j)
  unfolding has delete
  has-delete [] k j d = ground arith
  has-delete ((i, w) ∷ m) k j d =
      ground (arith, eq_iff i k, eq_iff i j, eq_iff k j, has-delete m k j d.1)

  pub delete-Distinct : (m : JsMap V) (k : String) → Distinct m → Distinct (delete m k)
  unfolding delete has
  delete-Distinct [] k d = tt
  delete-Distinct ((i, w) ∷ m) k d = ground (arith, has-delete m k i d.1, delete-Distinct m k d.1)

  pub get-none : (m : JsMap V) (k : String) → has m k ≡ false → get m k ≡ none
  unfolding has get
  get-none [] k h = refl
  get-none ((i, w) ∷ m) k h = ground (arith, get-none m k)

  pub get-delete :
      (m : JsMap V) (k j : String)
      → Distinct m
      → get (delete m k) j ≡ (if same k j then none else get m j)
  unfolding get delete
  get-delete [] k j d = ground arith
  get-delete ((i, w) ∷ m) k j d =
      ground (arith, eq_iff i k, eq_iff i j, eq_iff k j, get-delete m k j d.1, get-none m j)

  -- A key is there exactly when it has a value.
  pub has-get :
      (m : JsMap V) (k : String) → has m k ≡ (elim (get m k) [ none ↦ false | some v ↦ true ])
  unfolding has get
  has-get [] k = refl
  has-get ((i, w) ∷ m) k = ground (arith, has-get m k)
