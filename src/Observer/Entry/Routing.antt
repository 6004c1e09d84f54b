-- ===== src/Observer/Entry/Routing.antt =====
-- Which source of observer/src/main.ts takes part in what.
use demo_app.Base.{
  String, ◌==◌, ℕ, List, [], ◌∷◌, ◌≡◌, refl, ◌∙◌, ap, Bool, true, false, if◌then◌else◌, Bool-cases,
  inl, inr, arith, eq_iff, suc,
}
use demo_app.Observer.Sources
use demo_app.Observer.Sources.{Sources}
use demo_app.Observer.ObservedClients
use demo_app.Observer.ObservedSfus
use demo_app.Observer.Entry.{
  Query, Observer, Effect, Event, connected, message, socket_closed, requested, interrupted,
  record_effect, step, run,
}

-- What a source sees of the events: the connections of its protocol, and the messages and the ends of
-- all web sockets.
pub data Seen (Q : Type 0) : Type 0 where
  accepting : (web_socket : ℕ) → Q → Seen Q
  hearing : (web_socket : ℕ) (sample : String) → Seen Q
  losing : (now web_socket : ℕ) → Seen Q

module _ {Q : Type 0} (protocol : String) (of : Query → Q) where
  abbrev pub seen : List Event → List (Seen Q)
  seen [] = []
  seen (Event.socket_connected w p q ∷ es) =
      let rest = seen es in if p == protocol then accepting w (of q) ∷ rest else rest
  seen (Event.socket_message w sample ∷ es) = hearing w sample ∷ seen es
  seen (Event.socket_gone now w ∷ es) = losing now w ∷ seen es
  seen (_ ∷ es) = seen es

-- A source by itself.
module _ {Q : Type 0} (accept : Q → ℕ → Sources → Sources) (close : ℕ → ℕ → Sources → Sources) where
  abbrev see : Seen Q → Sources → Sources
  see (accepting w q) s = accept q w s
  see (hearing w sample) s = Sources.message w sample s.sockets s
  see (losing now w) s = close now w s

  abbrev pub alone : List (Seen Q) → Sources → Sources
  alone [] s = s
  alone (e ∷ es) s = alone es (see e s)

abbrev pub clients_alone : List Event → Sources → Sources
clients_alone es =
    alone ObservedClients.accept ObservedClients.socket_closed
      (seen "client-sample" (λ q. q.client) es)

abbrev pub sfus_alone : List Event → Sources → Sources
sfus_alone es =
    alone ObservedSfus.accept ObservedSfus.socket_closed (seen "sfu-sample" (λ q. q.sfu_id) es)

step-clients :
    (e : Event) (es : List Event) (o : Observer)
    → clients_alone es (step e o).clients ≡ clients_alone (e ∷ es) o.clients
unfolding step connected message socket_closed requested interrupted record_effect
step-clients (Event.socket_connected w p q) es o = ground arith
step-clients (Event.socket_message w sample) es o = refl
step-clients (Event.socket_gone now w) es o = refl
step-clients (Event.http_requested url) es o = ground arith
step-clients (Event.server_event e) es o = refl
step-clients Event.signalled es o = ground arith
step-clients Event.time_is_up es o = refl

-- A web socket of the first protocol is not one of the second.
not_both : (p : String) → (p == "client-sample") ≡ true → (p == "sfu-sample") ≡ false
not_both p e =
    let same : p ≡ "client-sample" = ground (arith, e, eq_iff p "client-sample") in
    ap (λ (t : String). t == "sfu-sample") same ∙ refl

connected-sfus :
    (w : ℕ) (p : String) (q : Query) (es : List Event) (o : Observer)
    → sfus_alone es (connected w p q o).sfus ≡ sfus_alone (Event.socket_connected w p q ∷ es) o.sfus
unfolding connected record_effect
connected-sfus w p q es o = elim (Bool-cases (p == "client-sample")) [
  | inl c ↦ rw (connected, c, not_both p c) refl
  | inr c ↦ elim (Bool-cases (p == "sfu-sample")) [
    | inl d ↦ rw (connected, c, d) refl
    | inr d ↦ rw (connected, c, d) refl
  ]
]

step-sfus :
    (e : Event) (es : List Event) (o : Observer)
    → sfus_alone es (step e o).sfus ≡ sfus_alone (e ∷ es) o.sfus
unfolding step message socket_closed requested interrupted record_effect
step-sfus (Event.socket_connected w p q) es o = connected-sfus w p q es o
step-sfus (Event.socket_message w sample) es o = refl
step-sfus (Event.socket_gone now w) es o = refl
step-sfus (Event.http_requested url) es o = ground arith
step-sfus (Event.server_event e) es o = refl
step-sfus Event.signalled es o = ground arith
step-sfus Event.time_is_up es o = refl

-- The observer is its two sources side by side: whatever the order of connections, messages, closes,
-- HTTP requests, signals and answers of Node, the clients are what `ObservedClients` makes by itself
-- of the connections with the protocol `client-sample` and of what comes over the web sockets, and the
-- SFUs what `ObservedSfus` makes of those with `sfu-sample`. All other connections reach neither.
pub run-sources :
    (es : List Event) (o : Observer)
    → ((run es o).clients ≡ clients_alone es o.clients) × ((run es o).sfus ≡ sfus_alone es o.sfus)
unfolding run
run-sources [] o = (refl, refl)
run-sources (e ∷ es) o =
    let later = run-sources es (step e o) in
    (later.0 ∙ step-clients e es o, later.1 ∙ step-sfus e es o)

-- The calls of `stop`.
abbrev pub stops : List Effect → ℕ
stops [] = 0
stops (Effect.stop_called ∷ es) = suc (stops es)
stops (_ ∷ es) = stops es

abbrev once_if : Bool → ℕ
once_if true = 1
once_if false = 0

abbrev Stops : Observer → Type 0
Stops o = stops o.effects ≡ once_if o.stopped

step-Stops : (e : Event) (o : Observer) → Stops o → Stops (step e o)
unfolding step connected message socket_closed requested interrupted record_effect
step-Stops (Event.socket_connected w p q) o v = ground arith
step-Stops (Event.socket_message w sample) o v = v
step-Stops (Event.socket_gone now w) o v = v
step-Stops (Event.http_requested url) o v = ground arith
step-Stops (Event.server_event e) o v = v
step-Stops Event.signalled o v = ground arith
step-Stops Event.time_is_up o v = v

-- However often the process is interrupted, `stop` is called at most once.
pub run-Stops : (es : List Event) (o : Observer) → Stops o → Stops (run es o)
unfolding run
run-Stops [] o v = v
run-Stops (e ∷ es) o v = run-Stops es (step e o) (step-Stops e o v)
