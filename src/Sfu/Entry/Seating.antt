-- ===== src/Sfu/Entry/Seating.antt =====
-- Every connection that sfu/src/main.ts puts into a room is put into one with the id it asked for.
use demo_app.Base.{
  String, ltb, ℕ, ◌+◌, List, [], ◌∷◌, ◌≡◌, refl, sym, ◌∙◌, Bool, true, false, not, some,
  if◌then◌else◌, get_elem?, set as set_elem, length, select, All, All-weaken, arith, Bool-cases,
  Option-cases, inl, inr, length-set,
}
use demo_app.Base.JsMap
use demo_app.Sfu.Room.Step
use demo_app.Sfu.Rooms
use demo_app.Sfu.Rooms.{Rooms, Creation, ready, pending}
use demo_app.Sfu.Entry.Halls.{id_at, config-step, id_at-set}
use demo_app.Sfu.Entry.Promises.{Belongs, Keeps, fail-Keeps, forget-Keeps}
use demo_app.Sfu.Entry.{
  Sfu, init, waits_for, reject, router_failed, finalized, hook_runs, leave_rooms, in_room, Event,
  socket_connected, created, failed, forgotten, room_event, step, run,
}
use demo_app.Sfu.Entry.Waiting.{IsSeated, relabel, Keeps-Sound, fewer, connected-IsSeated}
use demo_app.Sfu.Entry.Opening.{router_created-IsSeated}

-- A change of the creations that leaves the rooms and shares no new promise.
record Quiet (rs qs : Rooms) : Type 0 where
  rooms : qs.rooms ≡ rs.rooms
  next_room : qs.next_room ≡ rs.next_room
  creating :
      (k : String) (p : ℕ) → JsMap.get k qs.creating ≡ some p → JsMap.get k rs.creating ≡ some p

Quiet-IsSeated :
    (qs : Rooms) (s : Sfu)
    → Quiet s.rooms qs
    → Keeps s.rooms qs
    → IsSeated s
    → IsSeated (record s { rooms = qs })
Quiet-IsSeated qs s q k v = record {
  sound = Keeps-Sound k (λ i n e. v.sound.rooms i n (rw (← q.rooms) e)) q.creating v.sound;
  size = q.next_room ∙ v.size;
}

fail-Quiet : (p : ℕ) (c : Creation) (rs : Rooms) → Quiet rs (Rooms.fail p c rs)
unfolding Rooms.fail
fail-Quiet p c rs = elim (Bool-cases c.settled) [
  | inl e ↦ rw (e, Rooms.fail) (record { rooms = refl; next_room = refl; creating = λ k p e. e })
  | inr e ↦ rw (e, Rooms.fail) (record { rooms = refl; next_room = refl; creating = λ k p e. e })
]

forget-Quiet : (p : ℕ) (c : Creation) (rs : Rooms) → Quiet rs (Rooms.forget p c rs)
unfolding Rooms.forget
forget-Quiet p c rs = elim (Bool-cases c.settled) [
  | inl e ↦
      rw (e, Rooms.forget)
        (record {
          rooms = refl;
          next_room = refl;
          creating = λ k p e. ground (arith, e, JsMap.get-delete c.room_id k rs.creating);
        })
  | inr e ↦ rw (e, Rooms.forget) (record { rooms = refl; next_room = refl; creating = λ k p e. e })
]

router_failed-IsSeated : (p : ℕ) (s : Sfu) → IsSeated s → IsSeated (router_failed p s)
unfolding router_failed reject
router_failed-IsSeated p s v = elim (Option-cases (Rooms.find p s.rooms.creations)) [
  | inl e ↦ rw (router_failed, e) v
  | inr (c, e) ↦ rw (router_failed, e, reject) (go c c.settled)
]
  where
    go :
        (c : Creation) (b : Bool)
        → IsSeated (
            if b then s else record s {
              rooms = Rooms.fail p c s.rooms;
              waiting = select (λ g. not (waits_for p g)) s.waiting;
              unhandled = s.unhandled + length (select (waits_for p) s.waiting);
            })
    go c true = v
    go c false =
        let w =
          Quiet-IsSeated (Rooms.fail p c s.rooms) s (fail-Quiet p c s.rooms)
            (fail-Keeps p c s.rooms) v in
        record { sound = fewer (λ g. not (waits_for p g)) w.sound; size = w.size }

finalized-IsSeated : (p : ℕ) (s : Sfu) → IsSeated s → IsSeated (finalized p s)
unfolding finalized Rooms.finalized
finalized-IsSeated p s v = elim (Option-cases (Rooms.find p s.rooms.creations)) [
  | inl e ↦ rw (finalized, Rooms.finalized, e) v
  | inr (c, e) ↦
      rw (finalized, Rooms.finalized, e)
        (Quiet-IsSeated (Rooms.forget p c s.rooms) s (forget-Quiet p c s.rooms)
          (forget-Keeps p c s.rooms) v)
]

-- A closed room is no longer found; the others are.
closed-IsSeated :
    (id : String) (s : Sfu)
    → IsSeated s
    → IsSeated (record s { rooms = Rooms.room_closed id s.rooms })
unfolding Rooms.room_closed
closed-IsSeated id s v = record {
  sound = record {
    seats = v.sound.seats;
    rooms = λ k n e. v.sound.rooms k n (ground (arith, e, JsMap.get-delete id k s.rooms.rooms));
    waiting =
        All-weaken (λ g. Belongs g.promise g.room_id s.rooms) _ s.waiting
          (λ g b. record { given = b.given; mine = b.mine }) v.sound.waiting;
    creating = λ k p e. let b = v.sound.creating k p e in record { given = b.given; mine = b.mine };
    given = v.sound.given;
  };
  size = v.size;
}

in_room-IsSeated :
    (n now : ℕ) (e : Step.Event) (s : Sfu) → IsSeated s → IsSeated (in_room n now e s)
unfolding in_room leave_rooms
in_room-IsSeated n now e s v = elim (Option-cases (get_elem? s.halls n)) [
  | inl f ↦ rw (in_room, f) v
  | inr (r, f) ↦
      let r' = Step.step now e r in
      let moved = record s { halls = set_elem s.halls n r' } in
      let w : IsSeated moved = record {
        sound = relabel (λ m. sym (id_at-set s.halls n m r r' f (config-step now e r))) v.sound;
        size = v.size ∙ sym (length-set s.halls n r');
      } in
      elim (Bool-cases (ltb (hook_runs r.effects) (hook_runs r'.effects))) [
        | inl g ↦ rw (in_room, f, leave_rooms, g) (closed-IsSeated r'.config.room_id moved w)
        | inr g ↦ rw (in_room, f, leave_rooms, g) w
      ]
]

step-IsSeated : (e : Event) (s : Sfu) → IsSeated s → IsSeated (step e s)
unfolding step
step-IsSeated (socket_connected k id client user) s v = connected-IsSeated k id client user s v
step-IsSeated (created p router) s v = router_created-IsSeated p router s v
step-IsSeated (failed p) s v = router_failed-IsSeated p s v
step-IsSeated (forgotten p) s v = finalized-IsSeated p s v
step-IsSeated (room_event n now e) s v = in_room-IsSeated n now e s v

run-IsSeated : (es : List Event) (s : Sfu) → IsSeated s → IsSeated (run es s)
unfolding run
run-IsSeated [] s v = v
run-IsSeated (e ∷ es) s v = run-IsSeated es (step e s) (step-IsSeated e s v)

-- Whatever connections come, rooms are created, fail, run and close, in any order: every connection
-- that is in a room is in one that was made for the room id of its query, and every id that the map of
-- rooms holds leads to a room made for it.
pub id_at-run :
    (ip announced_ip : String) (sign : String → String → String → ℕ → String) (es : List Event)
    → let s = run es (init ip announced_ip sign) in
      All (λ t. id_at s.halls t.room ≡ some t.room_id) s.seats
      × ((k : String) (n : ℕ) → JsMap.get k s.rooms.rooms ≡ some n → id_at s.halls n ≡ some k)
unfolding init Rooms.init
id_at-run ip announced_ip sign es =
    let v = run-IsSeated es (init ip announced_ip sign) (record {
      sound = record {
        seats = tt;
        rooms = λ k n e. absurd (ground (arith, e, JsMap.get-empty {V = ℕ} k));
        waiting = tt;
        creating = λ k p e. absurd (ground (arith, e, JsMap.get-empty {V = ℕ} k));
        given = tt;
      };
      size = refl;
    }) in
    (v.sound.seats, v.sound.rooms)
