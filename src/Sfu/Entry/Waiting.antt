-- ===== src/Sfu/Entry/Waiting.antt =====
-- What holds of the connections that sfu/src/main.ts has put into rooms, and of those that wait for one;
-- a new connection keeps it.
use demo_app.Base.{
  String, ◌==◌, ℕ, List, [], ◌∷◌, ◌≡◌, sym, ◌∙◌, subst, Bool, ◌&&◌, Option, some, get_elem?, length,
  select, truthy, All, All-weaken, All-append_end, All-select, arith, Bool-cases, Option-cases, inl,
  inr, eq_iff, length-set,
}
use mathlib.Core.Path.{fun_ext}
use demo_app.Base.JsMap
use demo_app.Sfu.Room.Step
use demo_app.Sfu.Rooms
use demo_app.Sfu.Rooms.{Rooms, Creation, ready, pending}
use demo_app.Sfu.Entry.Halls.{id_at, config-add, id_at-set}
use demo_app.Sfu.Entry.Promises.{
  Belongs, Given, Keeps, Keeps-Belongs, Keeps-Given, begin-Given, begin-Belongs, begin-Belongs_new,
}
use demo_app.Sfu.Entry.{Guest, Seat, Sfu, seat, answer, or_empty, welcome, connected, seat_all}

-- The rooms' ids are `f`: those of the seats, of the map of rooms and of the promises fit.
pub record Sound (f : ℕ → Option String) (rs : Rooms) (ws : List Guest) (ts : List Seat)
    : Type 0 where
  pub seats : All (λ t. f t.room ≡ some t.room_id) ts
  pub rooms : (k : String) (n : ℕ) → JsMap.get k rs.rooms ≡ some n → f n ≡ some k
  pub waiting : All (λ g. Belongs g.promise g.room_id rs) ws
  pub creating : (k : String) (p : ℕ) → JsMap.get k rs.creating ≡ some p → Belongs p k rs
  pub given : Given rs

pub record IsSeated (s : Sfu) : Type 0 where
  pub sound : Sound (id_at s.halls) s.rooms s.waiting s.seats
  pub size : s.rooms.next_room ≡ length s.halls

module _ {f g : ℕ → Option String} {rs : Rooms} {ws : List Guest} {ts : List Seat} where
  pub relabel : ((n : ℕ) → f n ≡ g n) → Sound f rs ws ts → Sound g rs ws ts
  relabel same v = subst (λ h. Sound h rs ws ts) (fun_ext same) v

-- One more seat, in a room with the id.
seat-IsSeated :
    (g : Guest) (n : ℕ) (s : Sfu)
    → id_at s.halls n ≡ some g.room_id
    → IsSeated s
    → IsSeated (seat g n s) × ((m : ℕ) → id_at s.halls m ≡ id_at (seat g n s).halls m)
unfolding seat
seat-IsSeated g n s at v = elim (Option-cases (get_elem? s.halls n)) [
  | inl e ↦ absurd (ground (arith, at))
  | inr (r, e) ↦
      let same = (λ (m : ℕ). sym (
        id_at-set s.halls n m r (Step.add g.client_id g.user_id r) e
          (config-add g.client_id g.user_id r))) in
      rw (seat, e)
        (
          record {
            sound = relabel same (record {
              seats =
                  All-append_end (λ t. id_at s.halls t.room ≡ some t.room_id) s.seats _
                    v.sound.seats at;
              rooms = v.sound.rooms;
              waiting = v.sound.waiting;
              creating = v.sound.creating;
              given = v.sound.given;
            });
            size = v.size ∙ sym (length-set s.halls n (Step.add g.client_id g.user_id r));
          },
          same,
        )
]

pub seat_all-IsSeated :
    (gs : List Guest) (n : ℕ) (s : Sfu)
    → All (λ g. id_at s.halls n ≡ some g.room_id) gs
    → IsSeated s
    → IsSeated (seat_all gs n s)
unfolding seat_all
seat_all-IsSeated [] n s at v = v
seat_all-IsSeated (g ∷ gs) n s at v =
    let (w, same) = seat-IsSeated g n s at.0 v in
    seat_all-IsSeated gs n (seat g n s)
      (All-weaken (λ g. id_at s.halls n ≡ some g.room_id) _ gs (λ h e. sym (same n) ∙ e) at.1) w

-- The rooms have gone on: no creation but the old ones, and no promise but the old ones is shared.
pub Keeps-Sound :
    {f : ℕ → Option String} {rs qs : Rooms} {ws : List Guest} {ts : List Seat}
    → Keeps rs qs
    → ((k : String) (n : ℕ) → JsMap.get k qs.rooms ≡ some n → f n ≡ some k)
    → ((k : String) (p : ℕ) → JsMap.get k qs.creating ≡ some p → JsMap.get k rs.creating ≡ some p)
    → Sound f rs ws ts
    → Sound f qs ws ts
Keeps-Sound {rs} {qs} {ws} k rooms old v = record {
  seats = v.seats;
  rooms = rooms;
  waiting =
      All-weaken (λ g. Belongs g.promise g.room_id rs) (λ g. Belongs g.promise g.room_id qs) ws
        (λ g. Keeps-Belongs g.promise g.room_id k) v.waiting;
  creating = λ i p e. Keeps-Belongs p i k (v.creating i p (old i p e));
  given = Keeps-Given k v.given;
}

-- Fewer wait.
pub fewer :
    {f : ℕ → Option String} {rs : Rooms} {ws : List Guest} {ts : List Seat} (test : Guest → Bool)
    → Sound f rs ws ts
    → Sound f rs (select test ws) ts
fewer {rs} {ws} test v = record {
  seats = v.seats;
  rooms = v.rooms;
  waiting = All-select (λ g. Belongs g.promise g.room_id rs) test ws v.waiting;
  creating = v.creating;
  given = v.given;
}

-- One more waits.
wait-IsSeated :
    (socket : ℕ) (id client : String) (user : Option String) (p : ℕ) (s : Sfu)
    → Belongs p id s.rooms
    → IsSeated s
    → IsSeated (answer socket id client user (pending p) s)
unfolding answer
wait-IsSeated socket id client user p s b v = record {
  sound = record {
    seats = v.sound.seats;
    rooms = v.sound.rooms;
    waiting =
        All-append_end (λ g. Belongs g.promise g.room_id s.rooms) s.waiting _ v.sound.waiting b;
    creating = v.sound.creating;
    given = v.sound.given;
  };
  size = v.size;
}

-- The room is there.
ready-IsSeated :
    (socket : ℕ) (id client : String) (user : Option String) (n : ℕ) (s : Sfu)
    → id_at s.halls n ≡ some id
    → IsSeated s
    → IsSeated (answer socket id client user (ready n) s)
unfolding answer
ready-IsSeated socket id client user n s at v =
    let g : Guest = record {
      socket = socket;
      room_id = id;
      client_id = client;
      user_id = user;
      promise = 0;
    } in
    (seat-IsSeated g n s at v).0

begin-creating :
    (id k : String) (p : ℕ) (rs : Rooms)
    → Given rs
    → ((i : String) (q : ℕ) → JsMap.get i rs.creating ≡ some q → Belongs q i rs)
    → JsMap.get k (Rooms.begin id rs).0.creating ≡ some p
    → Belongs p k (Rooms.begin id rs).0
unfolding Rooms.begin
begin-creating id k p rs g old e = elim (Bool-cases (id == k)) [
  | inl hit ↦
      let now : rs.next_promise ≡ p =
        ground (arith, JsMap.get-set id k rs.next_promise rs.creating) in
      subst (λ i. Belongs p i (Rooms.begin id rs).0) ((eq_iff id k).0 hit)
        (subst (λ q. Belongs q id (Rooms.begin id rs).0) now (begin-Belongs_new id rs g))
  | inr miss ↦
      begin-Belongs p k id rs
        (old k p (ground (arith, JsMap.get-set id k rs.next_promise rs.creating)))
]

begin-IsSeated :
    (id : String) (s : Sfu)
    → IsSeated s
    → IsSeated (record s { rooms = (Rooms.begin id s.rooms).0 })
unfolding Rooms.begin
begin-IsSeated id s v = record {
  sound = record {
    seats = v.sound.seats;
    rooms = v.sound.rooms;
    waiting =
        All-weaken (λ g. Belongs g.promise g.room_id s.rooms)
          (λ g. Belongs g.promise g.room_id (Rooms.begin id s.rooms).0) s.waiting
          (λ g. begin-Belongs g.promise g.room_id id s.rooms) v.sound.waiting;
    creating = λ k p. begin-creating id k p s.rooms v.sound.given v.sound.creating;
    given = begin-Given id s.rooms v.sound.given;
  };
  size = v.size;
}

welcome-IsSeated :
    (socket : ℕ) (id client : String) (user : Option String) (s : Sfu)
    → IsSeated s
    → IsSeated (welcome socket id client user s)
unfolding welcome Rooms.get_or_create_room answer
welcome-IsSeated socket id client user s v = elim (Option-cases (JsMap.get id s.rooms.rooms)) [
  | inr (n, e) ↦
      rw (welcome, Rooms.get_or_create_room, e)
        (ready-IsSeated socket id client user n s (v.sound.rooms id n e) v)
  | inl vacant ↦ elim (Option-cases (JsMap.get id s.rooms.creating)) [
    | inr (p, e) ↦
        rw (welcome, Rooms.get_or_create_room, vacant, e)
          (wait-IsSeated socket id client user p s (v.sound.creating id p e) v)
    | inl free ↦
        rw (welcome, Rooms.get_or_create_room, vacant, free)
          (wait-IsSeated socket id client user s.rooms.next_promise _
            (begin-Belongs_new id s.rooms v.sound.given) (begin-IsSeated id s v))
  ]
]

pub connected-IsSeated :
    (socket : ℕ) (id client user : Option String) (s : Sfu)
    → IsSeated s
    → IsSeated (connected socket id client user s)
unfolding connected
connected-IsSeated socket id client user s v = elim (Bool-cases (truthy id && truthy client)) [
  | inl e ↦ rw (connected, e) (welcome-IsSeated socket (or_empty id) (or_empty client) user s v)
  | inr e ↦ rw (connected, e) (record { sound = v.sound; size = v.size })
]
