-- ===== src/Sfu/Rooms/Sharing.antt =====
-- Calls of `getOrCreateRoom` for one id share one creation, and no room is replaced.
use demo_app.Base.{
  String, ℕ, List, [], ◌∷◌, ◌≡◌, ◌≢◌, none, some, arith, Option-cases, Bool-cases, inl, inr, All,
  eq_iff,
}
use demo_app.Base.JsMap
use demo_app.Base.JsMap.{JsMap}
use demo_app.Sfu.Rooms.{
  Creation, Rooms, init, begin, get_or_create_room, find, make_room, router_created, fail,
  router_failed, forget, finalized, room_closed, Event, step, run,
}
use demo_app.Sfu.Rooms.Creations.{
  IsUnderWay, IsSound, All-imp, All-imp₂, IsUnderWay-set_creating, IsUnderWay-delete, settle-made,
  settle-failed, remove-each, settle-Apart, remove-Apart,
}

-- A creation for an id that no promise is stored for.
new-ids :
    (id : String) (rooms creating : JsMap ℕ) (cs : List Creation)
    → JsMap.get id creating ≡ none
    → All (IsUnderWay rooms creating) cs
    → All (λ d. d.room_id ≢ id) cs
new-ids id rooms creating cs e = All-imp cs (λ d u q. absurd (ground (arith, u.shared)))

begin-IsSound :
    (id : String) (s : Rooms)
    → JsMap.get id s.rooms ≡ none
    → JsMap.get id s.creating ≡ none
    → IsSound s
    → IsSound (begin id s).0
unfolding begin
begin-IsSound id s vacant free v =
    let fresh = new-ids id s.rooms s.creating s.creations free v.each in
    record {
      apart = (fresh, v.apart);
      each = (
        record {
          shared = ground (arith, JsMap.get-set id id s.next_promise s.creating, eq_iff id id);
          vacant = λ _. vacant;
        },
        All-imp₂ s.creations (λ d. IsUnderWay-set_creating s.rooms s.creating id s.next_promise d)
            fresh v.each,
      );
    }

get_or_create_room-IsSound :
    (id : String) (s : Rooms) → IsSound s → IsSound (get_or_create_room id s).0
unfolding get_or_create_room
get_or_create_room-IsSound id s v = elim (Option-cases (JsMap.get id s.rooms)) [
  | inr (room, e) ↦ rw (e, get_or_create_room) v
  | inl vacant ↦ elim (Option-cases (JsMap.get id s.creating)) [
    | inr (p, e) ↦ rw (vacant, e, get_or_create_room) v
    | inl free ↦ rw (vacant, free, get_or_create_room) (begin-IsSound id s vacant free v)
  ]
]

make_room-IsSound :
    (p : ℕ) (c : Creation) (s : Rooms)
    → find p s.creations ≡ some c
    → IsSound s
    → IsSound (make_room p c s)
unfolding make_room
make_room-IsSound p c s e v = elim (Bool-cases c.settled) [
  | inl done ↦ rw (done, make_room) v
  | inr waits ↦
      rw (waits, make_room)
        (record {
          apart = settle-Apart p s.creations v.apart;
          each = settle-made s.rooms s.creating s.next_room p s.creations c e v.apart v.each;
        })
]

fail-IsSound : (p : ℕ) (c : Creation) (s : Rooms) → IsSound s → IsSound (fail p c s)
unfolding fail
fail-IsSound p c s v = elim (Bool-cases c.settled) [
  | inl done ↦ rw (done, fail) v
  | inr waits ↦
      rw (waits, fail)
        (record {
          apart = settle-Apart p s.creations v.apart;
          each = settle-failed s.rooms s.creating p s.creations v.each;
        })
]

forget-IsSound :
    (p : ℕ) (c : Creation) (s : Rooms)
    → find p s.creations ≡ some c
    → IsSound s
    → IsSound (forget p c s)
unfolding forget
forget-IsSound p c s e v = elim (Bool-cases c.settled) [
  | inl done ↦
      rw (done, forget)
        (record {
          apart = remove-Apart p s.creations v.apart;
          each = remove-each s.rooms s.creating p s.creations c e v.apart v.each;
        })
  | inr waits ↦ rw (waits, forget) v
]

step-IsSound : (e : Event) (s : Rooms) → IsSound s → IsSound (step e s)
unfolding step router_created router_failed finalized room_closed
step-IsSound (Event.asked id) s v = get_or_create_room-IsSound id s v
step-IsSound (Event.closed id) s v = record {
  apart = v.apart;
  each = All-imp s.creations (λ d. IsUnderWay-delete s.rooms s.creating id d) v.each;
}
step-IsSound (Event.created p) s v = elim (Option-cases (find p s.creations)) [
  | inl e ↦ rw (e, router_created) v
  | inr (c, e) ↦ rw (e, router_created) (make_room-IsSound p c s e v)
]
step-IsSound (Event.failed p) s v = elim (Option-cases (find p s.creations)) [
  | inl e ↦ rw (e, router_failed) v
  | inr (c, e) ↦ rw (e, router_failed) (fail-IsSound p c s v)
]
step-IsSound (Event.forgotten p) s v = elim (Option-cases (find p s.creations)) [
  | inl e ↦ rw (e, finalized) v
  | inr (c, e) ↦ rw (e, finalized) (forget-IsSound p c s e v)
]

run-IsSound : (es : List Event) (s : Rooms) → IsSound s → IsSound (run es s)
unfolding run
run-IsSound [] s v = v
run-IsSound (e ∷ es) s v = run-IsSound es (step e s) (step-IsSound e s v)

init-IsSound : IsSound init
unfolding init
init-IsSound = record { apart = tt; each = tt }

-- After any order of calls and answers, the creations under way are for different ids, each one's
-- promise is what a further call for its id gets, and one that has not made its room finds no room
-- under its id: `rooms.set` never replaces a room.
pub run-init-IsSound : (es : List Event) → IsSound (run es init)
run-init-IsSound es = run-IsSound es init init-IsSound
