-- ===== src/Sfu/Entry/Opening.antt =====
-- A new room, and those of sfu/src/main.ts's connections that wait for it.
use demo_app.Base.{
  String, ◌==◌, ℕ, suc, List, [], ◌∷◌, ◌++◌, ◌≡◌, refl, sym, ap, ◌∙◌, subst, Bool, true, false, not,
  some, if◌then◌else◌, select, All, All-weaken, All-selected, arith, Bool-cases, Option-cases, inl,
  inr, eq_iff, length-append,
}
use demo_app.Base.JsMap
use demo_app.Sfu.Room.State.{Room, Router}
use demo_app.Sfu.Room.Step
use demo_app.Sfu.Rooms
use demo_app.Sfu.Rooms.{Rooms, Creation, ready, pending}
use demo_app.Sfu.Entry.Halls.{id_at, id_at-append_left, id_at-append_end}
use demo_app.Sfu.Entry.Promises.{Belongs, make_room-Keeps, find-Belongs}
use demo_app.Sfu.Entry.{Guest, Seat, Sfu, waits_for, admit, open_room, router_created}
use demo_app.Sfu.Entry.Waiting.{Sound, IsSeated, seat_all-IsSeated, Keeps-Sound, fewer}

set-rooms :
    (c : Creation) (r : Room) (s : Sfu) (k : String) (n : ℕ)
    → r.config.room_id ≡ c.room_id
    → IsSeated s
    → JsMap.get k (JsMap.set c.room_id s.rooms.next_room s.rooms.rooms) ≡ some n
    → id_at (s.halls ++ r ∷ []) n ≡ some k
set-rooms c r s k n named v e = elim (Bool-cases (c.room_id == k)) [
  | inl hit ↦
      let now : s.rooms.next_room ≡ n =
        ground (arith, JsMap.get-set c.room_id k s.rooms.next_room s.rooms.rooms) in
      subst (λ m. id_at (s.halls ++ r ∷ []) m ≡ some k) (sym v.size ∙ now)
        (id_at-append_end s.halls r ∙ ap some (named ∙ (eq_iff c.room_id k).0 hit))
  | inr miss ↦ id_at-append_left s.halls r n k (
      v.sound.rooms k n (ground (arith, JsMap.get-set c.room_id k s.rooms.next_room s.rooms.rooms)))
]

-- A new room at the end of the list.
grow :
    {rs : Rooms} {ws : List Guest} {ts : List Seat} (halls : List Room) (r : Room)
    → Sound (id_at halls) rs ws ts
    → Sound (id_at (halls ++ r ∷ [])) rs ws ts
grow {rs} {ws} {ts} halls r v = record {
  seats =
      All-weaken (λ t. id_at halls t.room ≡ some t.room_id)
        (λ t. id_at (halls ++ r ∷ []) t.room ≡ some t.room_id) ts
        (λ t. id_at-append_left halls r t.room t.room_id) v.seats;
  rooms = λ k n e. id_at-append_left halls r n k (v.rooms k n e);
  waiting = v.waiting;
  creating = v.creating;
  given = v.given;
}

-- What `then` changes.
record Made (c : Creation) (rs qs : Rooms) : Type 0 where
  rooms : qs.rooms ≡ JsMap.set c.room_id rs.next_room rs.rooms
  creating : qs.creating ≡ rs.creating
  next_room : qs.next_room ≡ suc rs.next_room

make_room-Made :
    (p : ℕ) (c : Creation) (rs : Rooms) → c.settled ≡ false → Made c rs (Rooms.make_room p c rs)
unfolding Rooms.make_room
make_room-Made p c rs waits =
    rw (waits, Rooms.make_room) (record { rooms = refl; creating = refl; next_room = refl })

open_room-IsSeated :
    (p : ℕ) (c : Creation) (router : Router) (s : Sfu)
    → c.settled ≡ false
    → IsSeated s
    → IsSeated (open_room p c router s)
      × (id_at (open_room p c router s).halls s.rooms.next_room ≡ some c.room_id)
unfolding open_room Step.init
open_room-IsSeated p c router s waits v =
    let r =
      Step.init (record { ip = s.ip; announced_ip = s.announced_ip; room_id = c.room_id }) router
        s.sign in
    let made = make_room-Made p c s.rooms waits in
    (
      record {
        sound =
            Keeps-Sound (make_room-Keeps p c s.rooms)
              (λ k n e. set-rooms c r s k n refl v (rw (← made.rooms) e))
              (λ k n e. rw (← made.creating) e) (grow s.halls r v.sound);
        size = made.next_room ∙ omega (arith, v.size, length-append s.halls (r ∷ []));
      },
      rw v.size (id_at-append_end s.halls r),
    )

admitted :
    (p : ℕ) (c : Creation) (s : Sfu) (rs : Rooms)
    → Rooms.find p rs.creations ≡ some c
    → All (λ g. Belongs g.promise g.room_id rs) s.waiting
    → All (λ g. c.room_id ≡ g.room_id) (select (waits_for p) s.waiting)
admitted p c s rs e h =
    All-selected (λ g. c.room_id ≡ g.room_id) (waits_for p) s.waiting
      (All-weaken (λ g. Belongs g.promise g.room_id rs) _ s.waiting
        (λ g b t.
          find-Belongs p g.room_id c rs e
            (subst (λ q. Belongs q g.room_id rs) (ground (arith, t)) b))
        h)

pub router_created-IsSeated :
    (p : ℕ) (router : Router) (s : Sfu) → IsSeated s → IsSeated (router_created p router s)
unfolding router_created admit
router_created-IsSeated p router s v = elim (Option-cases (Rooms.find p s.rooms.creations)) [
  | inl e ↦ rw (router_created, e) v
  | inr (c, e) ↦ rw (router_created, e) (go c e c.settled refl)
]
  where
    go :
        (c : Creation)
        → Rooms.find p s.rooms.creations ≡ some c
        → (b : Bool) → c.settled ≡ b
        → IsSeated (if b then s else admit p s.rooms.next_room (open_room p c router s))
    go c e true k = v
    go c e false k =
        let (opened, at) = open_room-IsSeated p c router s k v in
        let next = open_room p c router s in
        let rest = record next { waiting = select (λ g. not (waits_for p g)) next.waiting } in
        seat_all-IsSeated (select (waits_for p) next.waiting) s.rooms.next_room rest
          (All-weaken (λ g. c.room_id ≡ g.room_id) _ (select (waits_for p) next.waiting)
            (λ g i. at ∙ ap some i) (admitted p c s s.rooms e v.sound.waiting))
          (record { sound = fewer (λ g. not (waits_for p g)) opened.sound; size = opened.size })
