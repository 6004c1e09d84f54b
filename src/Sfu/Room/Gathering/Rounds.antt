-- ===== src/Sfu/Room/Gathering/Rounds.antt =====
-- The rounds of the listener of `join-call-request` of sfu/src/media/Room.ts, one for each other client.
use demo_app.Base.{String, ℕ, zero, suc, ◌+◌, ◌≡◌, refl, false, none, some, get_elem?, erase_idx}
use demo_app.Base.JsMap
use demo_app.Protocol.Messages.{Message}
use demo_app.Sfu.ClientEvents.{can_send}
use demo_app.Sfu.Room.State.{
  Consumer, Client, Room, Job, Loop, Task, sent, client_at, record_effect, send,
}
use demo_app.Sfu.Room.Consume.{
  token_lifetime, next_other, finish, loop_rounds, run_loop, consume_client,
}
use demo_app.Sfu.Room.Handlers.{fits, resume, done}
use demo_app.Sfu.Room.Step.{settled}
use demo_app.Sfu.Room.Feeding.Answering.{answers}

-- Mediasoup answers the calls of `consume` of the task at a place, and the loop goes on after each client.
unfoldable pub gathered : ℕ → ℕ → (String → Consumer) → ℕ → ℕ → Room → Room
unfolding answers settled
gathered now n make most zero r = r
gathered now n make most (suc fuel) r =
    let fed = answers now n make most r in
    elim (get_elem? fed.tasks n) [
      | some (Task.looping l) ↦ gathered now n make most fuel (settled now n done fed)
      | _ ↦ fed
    ]

pub answers-none :
    (now n : ℕ) (make : String → Consumer) (fuel : ℕ) (r : Room)
    → get_elem? r.tasks n ≡ none
    → answers now n make fuel r ≡ r
unfolding answers
answers-none now n make zero r e = refl
answers-none now n make (suc fuel) r e = rw (answers, e) refl

pub gathered-none :
    (now n : ℕ) (make : String → Consumer) (most fuel : ℕ) (r : Room)
    → get_elem? r.tasks n ≡ none
    → gathered now n make most fuel r ≡ r
unfolding gathered
gathered-none now n make most zero r e = refl
gathered-none now n make most (suc fuel) r e =
    rw (gathered, answers-none now n make most r e, e) (answers-none now n make most r e)

-- The loop goes on to the next client.
pub gathered-looping :
    (now n : ℕ) (make : String → Consumer) (most fuel : ℕ) (l : Loop) (r : Room)
    → get_elem? (answers now n make most r).tasks n ≡ some (Task.looping l)
    → gathered now n make most (suc fuel) r
      ≡ gathered now n make most fuel (settled now n done (answers now n make most r))
unfolding gathered
gathered-looping now n make most fuel l r e = rw (gathered, e) refl

pub settled-looping :
    (now n : ℕ) (l : Loop) (r : Room)
    → get_elem? r.tasks n ≡ some (Task.looping l)
    → settled now n done r ≡ run_loop now l (record r { tasks = erase_idx r.tasks n })
unfolding settled fits resume
settled-looping now n l r e = rw (settled, e) refl

-- The response to a join, when the loop is over.
pub run_loop_last :
    (now : ℕ) (i : String) (h cursor : ℕ) (c : Client) (r : Room)
    → client_at h r ≡ some c
    → c.events.closed ≡ false
    → next_other c.client_id cursor r.clients.entries ≡ none
    → (call : String) × (token : String) × (run_loop now
          (record { job = Job.joining i; owner = h; cursor = cursor })
          r
        ≡ record_effect (sent h (Message.join_call_response i call token)) r)
unfolding run_loop loop_rounds finish send can_send
run_loop_last now i h cursor c r at live e = (
  r.router.id,
  r.sign r.config.room_id c.client_id r.router.id (now + token_lifetime),
  rw (run_loop, at, loop_rounds, e, finish, send, at, live) refl,
)

pub run_loop_next :
    (now : ℕ) (i : String) (h cursor : ℕ) (c : Client) (x : JsMap.Entry ℕ) (r : Room)
    → client_at h r ≡ some c
    → next_other c.client_id cursor r.clients.entries ≡ some x
    → run_loop now (record { job = Job.joining i; owner = h; cursor = cursor }) r
      ≡ consume_client
          (record { job = Job.joining i; owner = h; cursor = suc x.stamp })
          x.key
          c.client_id
          r
unfolding run_loop loop_rounds
run_loop_next now i h cursor c x r at e = rw (run_loop, at, loop_rounds, e) refl
