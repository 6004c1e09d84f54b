-- ===== src/Observer/Sources/Checking.antt =====
-- What `check` removes.
use demo_app.Base.{
  String, ◌==◌, eq_iff, ℕ, List, [], ◌∷◌, ◌≡◌, refl, ◌∙◌, Option, none, some, if◌then◌else◌, arith,
  Bool, false, ltb, ◌&&◌, ◌+◌, Bool-cases, Option-cases, inl, inr, map,
}
use demo_app.Base.JsMap
use demo_app.Base.JsMap.{JsMap, Entry, find, get, delete}
use demo_app.Base.JsMap.Keys.{Distinct, Each, delete-Distinct, delete-Each}
use demo_app.Observer.Sources.{
  Peer, Sources, remove, close_source, is_expired, check_each, check, contains,
}

get-remove :
    (id k : String) (s : Sources)
    → get k (remove id s).peers ≡ (if id == k then none else get k s.peers)
unfolding remove close_source
get-remove id k s = elim (Option-cases (get id s.peers)) [
  | inl e ↦ rw (e, remove) (ground (arith, e, eq_iff id k))
  | inr (p, e) ↦ rw (e, remove) (ground (arith, JsMap.get-delete id k s.peers))
]

-- The time since which a peer is gone, when it is known, lies more than the limit before now.
abbrev pub is_overdue : ℕ → ℕ → Peer → Bool
is_overdue limit now p = elim p.disconnected [
  | none ↦ false
  | some since ↦ ltb 0 since && ltb (since + limit) now
]

is_expired_lem : (limit now : ℕ) (p : Peer) → is_expired limit now p ≡ is_overdue limit now p
unfolding is_expired
is_expired_lem limit now p = elim (Option-cases p.disconnected) [
  | inl e ↦ rw (is_expired, e) refl
  | inr (since, e) ↦ rw (is_expired, e) (ground arith)
]

-- Whether an entry survives.
abbrev pub kept : ℕ → ℕ → Option Peer → Option Peer → Option Peer
kept limit now none now_there = now_there
kept limit now (some p) now_there = if is_overdue limit now p then none else now_there

-- Every peer is kept under its own id.
abbrev pub IsKeyed : List (Entry Peer) → Type 0
IsKeyed = Each (λ k p. p.id ≡ k)

get-check_each :
    (limit now : ℕ) (k : String) (es : List (Entry Peer)) (s : Sources)
    → Distinct es
    → IsKeyed es
    → get k (check_each limit now (map (λ e. e.value) es) s).peers
      ≡ kept limit now (find k es) (get k s.peers)
unfolding check_each find
get-check_each limit now k [] s d i = refl
get-check_each limit now k (e ∷ es) s d i = elim (Bool-cases (is_overdue limit now e.value)) [
  | inl old ↦
      rw (check_each, is_expired_lem limit now e.value, old)
        (ground (
          arith,
          get-check_each limit now k es (remove e.value.id s) d.1 i.1,
          get-remove e.value.id k s,
          eq_iff e.key k,
          eq_iff e.value.id k,
          i.0,
          d.0,
          old,
        ))
  | inr young ↦
      rw (check_each, is_expired_lem limit now e.value, young)
        (ground (arith, get-check_each limit now k es s d.1 i.1, eq_iff e.key k, d.0, young))
]

-- `check` deletes exactly the peers that were marked disconnected at a time that, with the limit added,
-- lies before now, and leaves every other peer as it is. (A mark of 0 counts as none.)
pub get-check :
    (limit now : ℕ) (k : String) (s : Sources)
    → Distinct s.peers.entries
    → IsKeyed s.peers.entries
    → get k (check limit now s).peers ≡ kept limit now (get k s.peers) (get k s.peers)
unfolding check get
get-check limit now k s d i = get-check_each limit now k s.peers.entries s d i

remove-frame : (id : String) (s : Sources) → (remove id s).next_source ≡ s.next_source
unfolding remove close_source
remove-frame id s = ground arith

pub next_source-check_each :
    (limit now : ℕ) (ps : List Peer) (s : Sources)
    → (check_each limit now ps s).next_source ≡ s.next_source
unfolding check_each
next_source-check_each limit now [] s = refl
next_source-check_each limit now (p ∷ ps) s = elim (Bool-cases (is_expired limit now p)) [
  | inl old ↦
      rw (check_each, old)
        (next_source-check_each limit now ps (remove p.id s) ∙ remove-frame p.id s)
  | inr young ↦ rw (check_each, young) (next_source-check_each limit now ps s)
]

remove-Keyed :
    (id : String) (s : Sources)
    → Distinct s.peers.entries × IsKeyed s.peers.entries
    → Distinct (remove id s).peers.entries × IsKeyed (remove id s).peers.entries
unfolding remove close_source
remove-Keyed id s v =
    let t : Sources = record s { peers = delete id s.peers } in
    let w : Distinct t.peers.entries × IsKeyed t.peers.entries =
      (delete-Distinct id s.peers v.0, delete-Each (λ k p. p.id ≡ k) id s.peers v.1) in
    elim (Option-cases (get id s.peers)) [
      | inl e ↦ rw (remove, e) v
      | inr (p, e) ↦ elim (Bool-cases (contains p.source s.closed)) [
        | inl c ↦ rw (remove, e, close_source, c) w
        | inr c ↦ rw (remove, e, close_source, c) w
      ]
    ]

pub check_each-Keyed :
    (limit now : ℕ) (ps : List Peer) (s : Sources)
    → Distinct s.peers.entries × IsKeyed s.peers.entries
    → Distinct (check_each limit now ps s).peers.entries
      × IsKeyed (check_each limit now ps s).peers.entries
unfolding check_each
check_each-Keyed limit now [] s v = v
check_each-Keyed limit now (p ∷ ps) s v = elim (Bool-cases (is_expired limit now p)) [
  | inl old ↦
      rw (check_each, old) (check_each-Keyed limit now ps (remove p.id s) (remove-Keyed p.id s v))
  | inr young ↦ rw (check_each, young) (check_each-Keyed limit now ps s v)
]
