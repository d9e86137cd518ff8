-- ===== src/Server/Once.antt =====
-- A request of a client is written to the log once, however often it comes
-- (lib/server/raft_server.js).
use node_zmq_raft.Prelude.{
  ℕ, suc, ◌+◌, ◌≤◌, ◌≡◌, refl, ap, sym, ◌∙◌, subst, Bool, false, ◌&&◌, List, [], ◌∷◌, ◌++◌, Option,
  none, some, String, leb, ◌==◌, if◌then◌else◌, arith, Bool-cases, inl, inr, ◌⊎◌, eq_iff,
}
use node_zmq_raft.Prelude.JsMap
use node_zmq_raft.Prelude.JsMap.{
  JsMap, same, Distinct, set-Distinct, delete-Distinct, get-set, has-get, get-delete,
}
use node_zmq_raft.FileLog.{Log, Entry, remember}
use node_zmq_raft.FileLog.Writing.{grow}
use node_zmq_raft.Raft.{Raft, is_leader}
use node_zmq_raft.Server.{Serving, Append, write_next, after_append, after_write, still_waiting}
use node_zmq_raft.Server.Updates.{Untouched, update_followers_now-Untouched, append_entry-grow}

abbrev is_key : String → Option String → Bool
is_key key none = false
is_key key (some k) = same k key

-- How many entries of the log, and of those to write, are of the request.
unfoldable pub in_log : String → List Entry → ℕ
in_log key [] = 0
in_log key (entry ∷ entries) = (if is_key key entry.key then 1 else 0) + in_log key entries

unfoldable pub in_writing : String → List Append → ℕ
in_writing key [] = 0
in_writing key (next ∷ rest) = (if same next.key key then 1 else 0) + in_writing key rest

in_log-append :
    (key : String) (xs ys : List Entry) → in_log key (xs ++ ys) ≡ in_log key xs + in_log key ys
unfolding in_log
in_log-append key [] ys = omega arith
in_log-append key (x ∷ xs) ys = omega (arith, in_log-append key xs ys)

in_writing-append :
    (key : String) (xs ys : List Append)
    → in_writing key (xs ++ ys) ≡ in_writing key xs + in_writing key ys
unfolding in_writing
in_writing-append key [] ys = omega arith
in_writing-append key (x ∷ xs) ys = omega (arith, in_writing-append key xs ys)

-- Either nothing of the request is there; or it is to be written, once, and waits for its index; or it
-- is in the log, once, and remembered there.
unfoldable pub IsOnce :
    String → (waiting : JsMap (Option ℕ)) → List Append → List Entry → JsMap ℕ → Type 0
IsOnce key waiting writing entries rdb =
    (in_writing key writing + in_log key entries ≤ 1)
    × ((in_writing key writing ≡ 0) ⊎ (JsMap.get waiting key ≡ some none))
    × (((in_log key entries ≡ 0) × (JsMap.get rdb key ≡ none))
        ⊎ ((in_log key entries ≡ 1) × ((i : ℕ) × (JsMap.get rdb key ≡ some i))))

abbrev pub Once : String → Serving → Type 0
Once key v = IsOnce key v.peer.update_requests v.writing v.peer.log.entries v.peer.log.rdb

-- A request that is waited for, at an index or none.
pub wait_for-IsOnce :
    (key k : String) (w : Option ℕ) (waiting : JsMap (Option ℕ)) (writing : List Append)
    (entries : List Entry) (rdb : JsMap ℕ)
    → IsOnce key waiting writing entries rdb
    → (same k key ≡ false) ⊎ (in_writing key writing ≡ 0)
    → IsOnce key (JsMap.set waiting k w) writing entries rdb
unfolding IsOnce
wait_for-IsOnce key k w waiting writing entries rdb (a, b, c) h =
    (a, ground (arith, get-set waiting k key w), c)

pub start-IsOnce :
    (key : String) (next : Append) (waiting : JsMap (Option ℕ)) (writing : List Append)
    (entries : List Entry) (rdb : JsMap ℕ)
    → IsOnce key waiting writing entries rdb
    → JsMap.get waiting next.key ≡ none
    → JsMap.get rdb next.key ≡ none
    → IsOnce key (JsMap.set waiting next.key none) (writing ++ next ∷ []) entries rdb
unfolding IsOnce in_writing
start-IsOnce key next waiting writing entries rdb (a, b, c) free fresh =
    let added : in_writing key (writing ++ next ∷ [])
        ≡ in_writing key writing + in_writing key (next ∷ []) =
      in_writing-append key writing (next ∷ []) in
    elim (Bool-cases (same next.key key)) [
      | inl e ↦
          let same_key : next.key ≡ key = (eq_iff next.key key).0 e in
          let unseen : JsMap.get rdb key ≡ none = ap (JsMap.get rdb) (sym same_key) ∙ fresh in
          let not_waiting : JsMap.get waiting key ≡ none =
            ap (JsMap.get waiting) (sym same_key) ∙ free in
          let not_logged : in_log key entries ≡ 0 = elim c [
            | inl (z, f) ↦ z
            | inr (z, (i, f)) ↦ absurd cc
          ] in
          let not_writing : in_writing key writing ≡ 0 = elim b [ inl z ↦ z | inr f ↦ absurd cc ] in
          (
            ground arith,
            inr (ground (arith, get-set waiting next.key key none)),
            inl (not_logged, unseen),
          )
      | inr e ↦ (ground arith, ground (arith, get-set waiting next.key key none), c)
    ]

abbrev pub written_entry : Append → Entry
written_entry next = record { key = some next.key; type = 0; term = next.term; bytes = next.bytes }

-- An entry written moves to the log, and is remembered unless it has expired.
moved-IsOnce :
    (expired : String → Bool) (key : String) (next : Append) (waiting waiting' : JsMap (Option ℕ))
    (rest : List Append) (entries : List Entry) (rdb : JsMap ℕ) (index : ℕ)
    → expired key ≡ false
    → (same next.key key ≡ false → JsMap.get waiting' key ≡ JsMap.get waiting key)
    → IsOnce key waiting (next ∷ rest) entries rdb
    → IsOnce key waiting' rest
        (entries ++ written_entry next ∷ [])
        (remember expired rdb (some next.key) index)
unfolding IsOnce in_writing in_log remember
moved-IsOnce expired key next waiting waiting' rest entries rdb index fresh others (a, b, c) =
    let added : in_log key (entries ++ written_entry next ∷ [])
        ≡ in_log key entries + in_log key (written_entry next ∷ []) =
      in_log-append key entries (written_entry next ∷ []) in
    elim (Bool-cases (same next.key key)) [
      | inl e ↦
          let unexpired : expired next.key ≡ false =
            ap expired ((eq_iff next.key key).0 e) ∙ fresh in
          rw unexpired (
            ground arith,
            inl (ground arith),
            inr (ground arith, (index, get-set rdb next.key key index ∙ rw e refl)),
          )
      | inr e ↦
          let kept : JsMap.get (if expired next.key then rdb else JsMap.set rdb next.key index) key
              ≡ JsMap.get rdb key =
            ground (arith, get-set rdb next.key key index) in
          (
            ground arith,
            ground (arith, others e),
            elim c [
              | inl (z, f) ↦ inl (ground arith, kept ∙ f)
              | inr (z, (i, f)) ↦ inr (ground arith, (i, kept ∙ f))
            ],
          )
    ]

-- What is left of the requests that wait when some are applied.
still_waiting-has :
    (last : ℕ) (m : JsMap (Option ℕ)) (key : String)
    → JsMap.has m key ≡ false
    → JsMap.has (still_waiting last m) key ≡ false
unfolding still_waiting JsMap.has
still_waiting-has last [] key h = refl
still_waiting-has last ((k, none) ∷ m) key h = ground (arith, still_waiting-has last m key)
still_waiting-has last ((k, some index) ∷ m) key h = ground (arith, still_waiting-has last m key)

pub still_waiting-Distinct :
    (last : ℕ) (m : JsMap (Option ℕ)) → Distinct m → Distinct (still_waiting last m)
unfolding still_waiting
still_waiting-Distinct last [] d = tt
still_waiting-Distinct last ((k, none) ∷ m) (h, d) =
    (still_waiting-has last m k h, still_waiting-Distinct last m d)
still_waiting-Distinct last ((k, some index) ∷ m) (h, d) = elim (Bool-cases (leb index last)) [
  | inl e ↦ rw e (still_waiting-Distinct last m d)
  | inr e ↦ rw e (still_waiting-has last m k h, still_waiting-Distinct last m d)
]

pub still_waiting-get :
    (last : ℕ) (m : JsMap (Option ℕ)) (key : String)
    → JsMap.get m key ≡ some none
    → JsMap.get (still_waiting last m) key ≡ some none
unfolding still_waiting JsMap.get
still_waiting-get last [] key h = h
still_waiting-get last ((k, none) ∷ m) key h = ground (arith, still_waiting-get last m key)
still_waiting-get last ((k, some index) ∷ m) key h = ground (arith, still_waiting-get last m key)

-- A serving peer that has written the request at most once, and can write.
pub record IsServing (key : String) (v : Serving) : Type 0 where
  pub once : Once key v
  pub room : v.peer.log.first_index ≤ v.peer.log.last_index + 1
  pub distinct : Distinct v.peer.update_requests

Untouched-IsServing :
    (key : String) (s s' : Raft) (writing : List Append)
    → Untouched s s'
    → IsServing key (record { peer = s; writing = writing })
    → IsServing key (record { peer = s'; writing = writing })
Untouched-IsServing key s s' writing u v = record {
  once =
      subst (λ m. IsOnce key m writing s'.log.entries s'.log.rdb) (sym u.same_requests)
        (subst (λ (log : Log). IsOnce key s.update_requests writing log.entries log.rdb)
          (sym u.same_log) v.once);
  room = subst (λ (log : Log). log.first_index ≤ log.last_index + 1) (sym u.same_log) v.room;
  distinct = subst Distinct (sym u.same_requests) v.distinct;
}

module _ (expired : String → Bool) (fits : Log → ℕ → Bool → List Entry) (key : String) where
  -- What follows a write, where any map of those that wait will do that keeps the others.
  after_write-IsServing :
      (v : Serving) (next : Append) (index : ℕ)
      → ((waiting : JsMap (Option ℕ))
          → (same next.key key ≡ false
              → JsMap.get waiting key ≡ JsMap.get v.peer.update_requests key)
          → IsOnce key waiting v.writing v.peer.log.entries v.peer.log.rdb)
      → v.peer.log.first_index ≤ v.peer.log.last_index + 1
      → Distinct v.peer.update_requests
      → IsServing key (after_write expired fits v next index).serving
  unfolding after_write
  after_write-IsServing v next index once room distinct =
      elim (Bool-cases ((next.term == v.peer.current_term) && is_leader v.peer.state)) [
        | inr e ↦ rw e (record {
          once = once v.peer.update_requests (λ o. refl);
          room = room;
          distinct = distinct;
        })
        | inl e ↦ elim (Bool-cases (leb index v.peer.last_applied)) [
          | inl d ↦
              rw (e, d)
                (record {
                  once = once (JsMap.delete v.peer.update_requests next.key) (λ o.
                      ground (arith, get-delete v.peer.update_requests next.key key distinct));
                  room = room;
                  distinct = delete-Distinct v.peer.update_requests next.key distinct;
                })
          | inr d ↦
              let waiting : JsMap (Option ℕ) =
                if JsMap.has v.peer.update_requests next.key
                then JsMap.set v.peer.update_requests next.key (some index)
                else v.peer.update_requests in
              rw (e, d)
                (Untouched-IsServing key (record v.peer { update_requests = waiting }) _ v.writing
                  (update_followers_now-Untouched fits
                    (record v.peer { update_requests = waiting }))
                  (record {
                    once = once waiting (λ o.
                        ground (arith, get-set v.peer.update_requests next.key key (some index)));
                    room = room;
                    distinct =
                        ground (arith, set-Distinct v.peer.update_requests next.key (some index));
                  }))
        ]
      ]

  pub write_next-IsServing :
      (v : Serving) (writing : List Append)
      → expired key ≡ false
      → v.writing ≡ writing
      → IsServing key v
      → IsServing key (write_next expired fits v writing).serving
  unfolding write_next after_append grow
  write_next-IsServing v [] fresh e s = s
  write_next-IsServing v (next ∷ rest) fresh e s =
      let log = v.peer.log in
      let grown : Log = grow expired log (written_entry next) in
      let others : (waiting : JsMap (Option ℕ))
          → (same next.key key ≡ false
              → JsMap.get waiting key ≡ JsMap.get v.peer.update_requests key)
          → IsOnce key waiting rest grown.entries grown.rdb =
        λ waiting same_others.
          moved-IsOnce expired key next v.peer.update_requests waiting rest log.entries log.rdb
            (suc log.last_index) fresh same_others
            (subst (λ all. IsOnce key v.peer.update_requests all log.entries log.rdb) e s.once) in
      subst (λ r. IsServing key (after_append expired fits v next rest r).serving)
        (sym (append_entry-grow expired log (written_entry next) s.room refl))
        (after_write-IsServing (record { peer = record v.peer { log = grown }; writing = rest })
          next (suc log.last_index) others (omega (arith, s.room)) s.distinct)

-- A request that the log has seen is not to be written.
pub seen-unwritten :
    (key k : String) (i : ℕ) (waiting : JsMap (Option ℕ)) (writing : List Append)
    (entries : List Entry) (rdb : JsMap ℕ)
    → IsOnce key waiting writing entries rdb
    → JsMap.get rdb k ≡ some i
    → (same k key ≡ false) ⊎ (in_writing key writing ≡ 0)
unfolding IsOnce
seen-unwritten key k i waiting writing entries rdb (a, b, c) seen = elim (Bool-cases (same k key)) [
  | inr e ↦ inl e
  | inl e ↦
      let here : JsMap.get rdb key ≡ some i =
        ap (JsMap.get rdb) (sym ((eq_iff k key).0 e)) ∙ seen in
      elim c [ inl (z, f) ↦ absurd cc | inr (z, f) ↦ inr (omega arith) ]
]

pub IsOnce-count :
    (key : String) (waiting : JsMap (Option ℕ)) (writing : List Append) (entries : List Entry)
    (rdb : JsMap ℕ)
    → IsOnce key waiting writing entries rdb
    → in_writing key writing + in_log key entries ≤ 1
unfolding IsOnce
IsOnce-count key waiting writing entries rdb (a, b, c) = a

pub applied-IsOnce :
    (key : String) (last : ℕ) (waiting : JsMap (Option ℕ)) (writing : List Append)
    (entries : List Entry) (rdb : JsMap ℕ)
    → IsOnce key waiting writing entries rdb
    → IsOnce key (still_waiting last waiting) writing entries rdb
unfolding IsOnce
applied-IsOnce key last waiting writing entries rdb (a, b, c) =
    (a, elim b [ inl z ↦ inl z | inr w ↦ inr (still_waiting-get last waiting key w) ], c)
