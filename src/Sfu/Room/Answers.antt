-- ===== src/Sfu/Room/Answers.antt =====
-- The responses that a room of sfu/src/media/Room.ts owes to its clients. A ticket is what a request
-- entitles its client to: a response of the request's kind that carries its id.
pub mod Loops
pub mod Listeners
pub mod Once
use demo_app.Base.{
  String, ◌==◌, ℕ, ◌+◌, List, [], ◌∷◌, Bool, false, ◌&&◌, Option, none, some, if◌then◌else◌, eqb,
  total,
}
use demo_app.Protocol.Messages.{Message}
use demo_app.Protocol.Codec.{Frame}
use demo_app.Sfu.Room.State.{
  Handler, Room, Job, Task, Effect, sent, on_get_router_capabilities, on_create_transport,
  on_join_call, on_create_producer, on_pause_producer, on_resume_producer,
}
use demo_app.Sfu.Room.Step.{Event}

pub data Ticket : Type 0 where
  for_capabilities for_transport for_call for_producer for_pause : (request_id : String) → Ticket

-- The room answers both requests with a `pause-producer-response`.
unfoldable pub asked_by : Message → Option Ticket
asked_by (Message.get_router_capabilities_request i) = some (for_capabilities i)
asked_by (Message.create_transport_request i role) = some (for_transport i)
asked_by (Message.join_call_request i) = some (for_call i)
asked_by (Message.create_producer_request i kind rtp u) = some (for_producer i)
asked_by (Message.pause_producer_request i p) = some (for_pause i)
asked_by (Message.resume_producer_request i p) = some (for_pause i)
asked_by _ = none

unfoldable pub answered_by : Message → Option Ticket
answered_by (Message.get_router_capabilities_response i caps) = some (for_capabilities i)
answered_by (Message.create_transport_response i t) = some (for_transport i)
answered_by (Message.join_call_response i call token) = some (for_call i)
answered_by (Message.create_producer_response i p) = some (for_producer i)
answered_by (Message.pause_producer_response i) = some (for_pause i)
answered_by _ = none

-- What each ticket of each client counts.
abbrev pub Weight : Type 0
Weight = ℕ → Ticket → ℕ

unfoldable pub is_ticket : Ticket → Ticket → Bool
is_ticket (for_capabilities i) (for_capabilities j) = i == j
is_ticket (for_transport i) (for_transport j) = i == j
is_ticket (for_call i) (for_call j) = i == j
is_ticket (for_producer i) (for_producer j) = i == j
is_ticket (for_pause i) (for_pause j) = i == j
is_ticket _ _ = false

-- One ticket of one client counts.
unfoldable pub only : ℕ → Ticket → Weight
unfolding is_ticket
only h t k u = if eqb h k && is_ticket t u then 1 else 0

module _ (w : Weight) where
  abbrev pub worth : ℕ → Option Ticket → ℕ
  worth h none = 0
  worth h (some t) = w h t

  -- The tickets of the requests among the events.
  unfoldable pub requests : List (ℕ × Event) → ℕ
  unfolding asked_by
  requests [] = 0
  requests ((now, Event.received h (Frame.message m)) ∷ es) = worth h (asked_by m) + requests es
  requests (_ ∷ es) = requests es

  -- The tickets of the responses among the effects.
  unfoldable pub responses : List Effect → ℕ
  unfolding answered_by
  responses [] = 0
  responses (sent h m ∷ es) = worth h (answered_by m) + responses es
  responses (_ ∷ es) = responses es

  abbrev pub waiting_job : ℕ → Job → ℕ
  waiting_job h (Job.joining i) = w h (for_call i)
  waiting_job h Job.feeding = 0

  -- The ticket that a listener at an `await` still has to answer.
  abbrev pub waiting : Task → ℕ
  waiting (Task.creating_transport h i role) = w h (for_transport i)
  waiting (Task.connecting h role) = 0
  waiting (Task.creating_producer h i) = w h (for_producer i)
  waiting (Task.pausing h i) = w h (for_pause i)
  waiting (Task.resuming h i) = w h (for_pause i)
  waiting (Task.looping l) = waiting_job l.owner l.job
  waiting (Task.consuming k p) = waiting_job k.loop.owner k.loop.job

  -- The tickets that the room has answered or still holds.
  abbrev pub held : Room → ℕ
  held r = total waiting r.tasks + responses r.effects

  -- The ticket that a listener answers when it gets a frame.
  abbrev pub serves : ℕ → Frame → Handler → ℕ
  serves h (Frame.message (Message.get_router_capabilities_request i)) on_get_router_capabilities =
      w h (for_capabilities i)
  serves h (Frame.message (Message.create_transport_request i role)) on_create_transport =
      w h (for_transport i)
  serves h (Frame.message (Message.join_call_request i)) on_join_call = w h (for_call i)
  serves h (Frame.message (Message.create_producer_request i kind rtp u)) on_create_producer =
      w h (for_producer i)
  serves h (Frame.message (Message.pause_producer_request i p)) on_pause_producer =
      w h (for_pause i)
  serves h (Frame.message (Message.resume_producer_request i p)) on_resume_producer =
      w h (for_pause i)
  serves h _ _ = 0
