-- ===== src/Webapp/Store/Refinement.antt =====
-- The list of remote clients (webapp/src/store/remoteClientsSlice.tsx) as a function from ids.
use demo_app.Base.{
  String, ◌==◌, eq_iff, List, [], ◌∷◌, ◌++◌, ◌≡◌, refl, ap, ◌∙◌, not, Option, none, some,
  if◌then◌else◌, select, arith, Bool-cases, Option-cases, inl, inr, or_else,
}
use mathlib.Core.Path.{fun_ext}
use demo_app.Webapp.Store.{
  RemoteClient, RemoteClientsState, initial_state, find, update, add, remove, with_audio,
  with_video, set_audio_track_id, set_video_track_id, Action, added, removed, audio_set, video_set,
  reduce, dispatch_all,
}

-- The store as a function.
abbrev pub Clients : Type 0
Clients = String → Option RemoteClient

abbrev pub view : RemoteClientsState → Clients
view s k = find k s.clients

abbrev change : (RemoteClient → RemoteClient) → Option RemoteClient → Option RemoteClient
change f none = none
change f (some c) = some (f c)

-- What an action means: `add` keeps the client that is there, and a setter needs one.
abbrev pub meaning : Action → Clients → Clients
meaning (added c) f k = if c.client_id == k then or_else (f k) (some c) else f k
meaning (removed id) f k = if id == k then none else f k
meaning (audio_set id t) f k = if id == k then change (with_audio t) (f k) else f k
meaning (video_set id t) f k = if id == k then change (with_video t) (f k) else f k

abbrev pub replay : List Action → Clients → Clients
replay [] f = f
replay (a ∷ rest) f = replay rest (meaning a f)

pub find-append :
    (k : String) (cs : List RemoteClient) (c : RemoteClient)
    → find k (cs ++ c ∷ []) ≡ or_else (find k cs) (if c.client_id == k then some c else none)
unfolding find
find-append k [] c = refl
find-append k (x ∷ cs) c = ground (arith, find-append k cs c)

pub find-select :
    (id k : String) (cs : List RemoteClient)
    → find k (select (λ c. not (c.client_id == id)) cs) ≡ (if id == k then none else find k cs)
unfolding find
find-select id k [] = ground arith
find-select id k (x ∷ cs) =
    ground (arith, find-select id k cs, eq_iff x.client_id id, eq_iff x.client_id k, eq_iff id k)

pub find-update :
    (id k : String) (f : RemoteClient → RemoteClient) (cs : List RemoteClient)
    → ((c : RemoteClient) → (f c).client_id ≡ c.client_id)
    → find k (update id f cs) ≡ (if id == k then change f (find k cs) else find k cs)
unfolding find update
find-update id k f [] keep = ground arith
find-update id k f (x ∷ cs) keep = ground (
  arith,
  find-update id k f cs keep,
  keep x,
  eq_iff x.client_id id,
  eq_iff x.client_id k,
  eq_iff (f x).client_id k,
  eq_iff id k,
)

view-reduce :
    (a : Action) (s : RemoteClientsState) (k : String) → view (reduce a s) k ≡ meaning a (view s) k
unfolding reduce add remove set_audio_track_id set_video_track_id
view-reduce (added c) s k = ground (arith, find-append k s.clients c, eq_iff c.client_id k)
view-reduce (removed id) s k = find-select id k s.clients
view-reduce (audio_set id t) s k = find-update id k (with_audio t) s.clients (λ c. refl)
view-reduce (video_set id t) s k = find-update id k (with_video t) s.clients (λ c. refl)

view-dispatch_all_from :
    (actions : List Action) (s : RemoteClientsState)
    → view (dispatch_all actions s) ≡ replay actions (view s)
unfolding dispatch_all
view-dispatch_all_from [] s = refl
view-dispatch_all_from (a ∷ rest) s =
    view-dispatch_all_from rest (reduce a s) ∙ ap (replay rest) (fun_ext (view-reduce a s))

-- No two clients have the same id.
abbrev pub IsUnique : List RemoteClient → Type 0
IsUnique [] = Unit {0}
IsUnique (c ∷ cs) = (find c.client_id cs ≡ none) × IsUnique cs

append-IsUnique :
    (cs : List RemoteClient) (c : RemoteClient)
    → find c.client_id cs ≡ none
    → IsUnique cs
    → IsUnique (cs ++ c ∷ [])
unfolding find
append-IsUnique [] c h u = (refl, tt)
append-IsUnique (x ∷ cs) c h u = (
  ground (
    arith,
    find-append x.client_id cs c,
    eq_iff c.client_id x.client_id,
    eq_iff x.client_id c.client_id,
    u.0,
  ),
  append-IsUnique cs c (ground arith) u.1,
)

select-IsUnique :
    (id : String) (cs : List RemoteClient)
    → IsUnique cs
    → IsUnique (select (λ c. not (c.client_id == id)) cs)
select-IsUnique id [] u = tt
select-IsUnique id (x ∷ cs) u = elim (Bool-cases (x.client_id == id)) [
  | inl hit ↦ rw hit (select-IsUnique id cs u.1)
  | inr miss ↦
      rw miss (ground (arith, find-select id x.client_id cs, u.0), select-IsUnique id cs u.1)
]

update-IsUnique :
    (id : String) (f : RemoteClient → RemoteClient) (cs : List RemoteClient)
    → ((c : RemoteClient) → (f c).client_id ≡ c.client_id)
    → IsUnique cs
    → IsUnique (update id f cs)
unfolding update
update-IsUnique id f [] keep u = tt
update-IsUnique id f (x ∷ cs) keep u = elim (Bool-cases (x.client_id == id)) [
  | inl hit ↦ rw (hit, keep x) u
  | inr miss ↦
      rw miss (
        ground (arith, find-update id x.client_id f cs keep, u.0),
        update-IsUnique id f cs keep u.1,
      )
]

reduce-IsUnique :
    (a : Action) (s : RemoteClientsState) → IsUnique s.clients → IsUnique (reduce a s).clients
unfolding reduce add remove set_audio_track_id set_video_track_id
reduce-IsUnique (added c) s u = elim (Option-cases (find c.client_id s.clients)) [
  | inl e ↦ rw e (append-IsUnique s.clients c e u)
  | inr (x, e) ↦ rw e u
]
reduce-IsUnique (removed id) s u = select-IsUnique id s.clients u
reduce-IsUnique (audio_set id t) s u = update-IsUnique id (with_audio t) s.clients (λ c. refl) u
reduce-IsUnique (video_set id t) s u = update-IsUnique id (with_video t) s.clients (λ c. refl) u

dispatch_all-IsUnique :
    (actions : List Action) (s : RemoteClientsState)
    → IsUnique s.clients
    → IsUnique (dispatch_all actions s).clients
unfolding dispatch_all
dispatch_all-IsUnique [] s u = u
dispatch_all-IsUnique (a ∷ rest) s u =
    dispatch_all-IsUnique rest (reduce a s) (reduce-IsUnique a s u)

-- The list implements a function from ids: any actions from the initial state on give a list with no
-- id twice, which shows, at each id, what the same actions make of the empty function.
pub view-dispatch_all :
    (actions : List Action)
    → IsUnique (dispatch_all actions initial_state).clients
      × (view (dispatch_all actions initial_state) ≡ replay actions (λ k. none))
unfolding initial_state find
view-dispatch_all actions =
    (dispatch_all-IsUnique actions initial_state tt, view-dispatch_all_from actions initial_state)
