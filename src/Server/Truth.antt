-- ===== src/Server/Truth.antt =====
-- An index that a client is told is that of its request, in the log and applied
-- (lib/server/raft_server.js).
use node_zmq_raft.Prelude.{
  ℕ, suc, ◌-◌, ◌≤◌, ◌≡◌, refl, sym, subst, Bool, List, [], ◌∷◌, Option, none, some, String, leb,
  arith, Bool-cases, inl, inr, eq_iff, get_elem?-append_at,
}
use node_zmq_raft.Prelude.JsMap
use node_zmq_raft.Prelude.JsMap.{JsMap, same}
use node_zmq_raft.FileLog.{Log, Entry}
use node_zmq_raft.FileLog.Wellformed.{IsLog, KeyAt, Remembered, KeyAt-append}
use node_zmq_raft.FileLog.Writing.{grow}
use node_zmq_raft.Server.{
  Serving, Served, Append, Answer, update_applied, applied_answers, still_waiting,
}
use node_zmq_raft.Server.Once.{written_entry}

-- A request that waits for an index waits for its own entry.
abbrev pub IsFor : Log → String → Option ℕ → Type 0
IsFor log key none = Unit {0}
IsFor log key (some i) = KeyAt log.entries log.base key i

unfoldable pub WaitsFor : Log → JsMap (Option ℕ) → Type 0
WaitsFor log [] = Unit {0}
WaitsFor log ((key, w) ∷ m) = IsFor log key w × WaitsFor log m

-- The index in an answer is that of the request's entry, which is applied.
abbrev pub IsTrue : Log → ℕ → Answer → Type 0
IsTrue log last (update_applied key i) = KeyAt log.entries log.base key i × (i ≤ last)
IsTrue log last _ = Unit {0}

unfoldable pub AreTrue : Log → ℕ → List Answer → Type 0
AreTrue log last [] = Unit {0}
AreTrue log last (one ∷ answers) = IsTrue log last one × AreTrue log last answers

pub record IsTruthful (v : Serving) : Type 0 where
  pub logged : IsLog v.peer.log
  pub waits : WaitsFor v.peer.log v.peer.update_requests

abbrev pub AnswersTrue : Served → Type 0
AnswersTrue r =
    IsTruthful r.serving × AreTrue r.serving.peer.log r.serving.peer.last_applied r.answers

pub Remembered-get :
    (entries : List Entry) (base : ℕ) (rdb : JsMap ℕ) (key : String) (i : ℕ)
    → Remembered entries base rdb
    → JsMap.get rdb key ≡ some i
    → KeyAt entries base key i
unfolding Remembered JsMap.get
Remembered-get entries base [] key i r e = absurd cc
Remembered-get entries base ((k, j) ∷ rdb) key i (at, r) e = elim (Bool-cases (same k key)) [
  | inl d ↦
      let same_index : j ≡ i = ground arith in
      subst (λ n. KeyAt entries base key n) same_index
        (subst (λ name. KeyAt entries base name j) ((eq_iff k key).0 d) at)
  | inr d ↦ Remembered-get entries base rdb key i r (ground arith)
]

pub set-WaitsFor :
    (log : Log) (key : String) (m : JsMap (Option ℕ)) (w : Option ℕ)
    → IsFor log key w
    → WaitsFor log m
    → WaitsFor log (JsMap.set m key w)
unfolding WaitsFor JsMap.set
set-WaitsFor log key [] w one all = (one, tt)
set-WaitsFor log key ((k, u) ∷ m) w one (at, all) = elim (Bool-cases (same k key)) [
  | inl e ↦ rw e (subst (λ name. IsFor log name w) (sym ((eq_iff k key).0 e)) one, all)
  | inr e ↦ rw e (at, set-WaitsFor log key m w one all)
]

pub delete-WaitsFor :
    (log : Log) (key : String) (m : JsMap (Option ℕ))
    → WaitsFor log m
    → WaitsFor log (JsMap.delete m key)
unfolding WaitsFor JsMap.delete
delete-WaitsFor log key [] all = tt
delete-WaitsFor log key ((k, u) ∷ m) (at, all) = elim (Bool-cases (same k key)) [
  | inl e ↦ rw e all
  | inr e ↦ rw e (at, delete-WaitsFor log key m all)
]

pub still_waiting-WaitsFor :
    (log : Log) (last : ℕ) (m : JsMap (Option ℕ))
    → WaitsFor log m
    → WaitsFor log (still_waiting last m)
unfolding WaitsFor still_waiting
still_waiting-WaitsFor log last [] all = tt
still_waiting-WaitsFor log last ((k, none) ∷ m) (at, all) =
    (at, still_waiting-WaitsFor log last m all)
still_waiting-WaitsFor log last ((k, some i) ∷ m) (at, all) = elim (Bool-cases (leb i last)) [
  | inl e ↦ rw e (still_waiting-WaitsFor log last m all)
  | inr e ↦ rw e (at, still_waiting-WaitsFor log last m all)
]

pub applied_answers-AreTrue :
    (log : Log) (last : ℕ) (m : JsMap (Option ℕ))
    → WaitsFor log m
    → AreTrue log last (applied_answers last m)
unfolding WaitsFor applied_answers AreTrue
applied_answers-AreTrue log last [] all = tt
applied_answers-AreTrue log last ((k, none) ∷ m) (at, all) = applied_answers-AreTrue log last m all
applied_answers-AreTrue log last ((k, some i) ∷ m) (at, all) = elim (Bool-cases (leb i last)) [
  | inl e ↦ rw e ((at, ground arith), applied_answers-AreTrue log last m all)
  | inr e ↦ rw e (applied_answers-AreTrue log last m all)
]

-- The log grows behind what is waited for.
pub WaitsFor-grow :
    (expired : String → Bool) (log : Log) (entry : Entry) (m : JsMap (Option ℕ))
    → WaitsFor log m
    → WaitsFor (grow expired log entry) m
unfolding WaitsFor grow
WaitsFor-grow expired log entry [] all = tt
WaitsFor-grow expired log entry ((k, none) ∷ m) (at, all) =
    (tt, WaitsFor-grow expired log entry m all)
WaitsFor-grow expired log entry ((k, some i) ∷ m) (at, all) =
    (KeyAt-append log.entries (entry ∷ []) log.base k i at, WaitsFor-grow expired log entry m all)

-- The entry written has its key.
pub grow-KeyAt :
    (expired : String → Bool) (log : Log) (next : Append)
    → IsLog log
    → KeyAt (grow expired log (written_entry next)).entries log.base next.key (suc log.last_index)
unfolding KeyAt grow
grow-KeyAt expired log next h = (
  omega (arith, h.ends),
  written_entry next,
  get_elem?-append_at log.entries [] (written_entry next) (suc log.last_index - log.base)
      (omega (arith, h.ends)),
  refl,
)
