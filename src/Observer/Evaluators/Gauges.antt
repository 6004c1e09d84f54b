-- ===== src/Observer/Evaluators/Gauges.antt =====
-- The two gauges of the observer: `createTurnEvaluator` (observer/src/evaluators/turnEvaluator.ts) and
-- `createSfuEvaluator` (observer/src/evaluators/sfuEvaluator.ts).
use demo_app.Base.{
  String, ◌==◌, eq_iff, ℕ, ◌+◌, ◌*◌, List, [], ◌∷◌, ◌≡◌, refl, Bool, false, Option, none, some,
  ◌||◌, ◌&&◌, truthy, if◌then◌else◌, arith, length, ltb, select, map, Bool-cases, inl, inr, ◌∙◌,
}

pub record IceCandidate : Type 0 where
  pub id : String
  pub candidate_type : String

pub record PeerConnection : Type 0 where
  pub client_id : Option String
  pub ice_remote_candidates : List IceCandidate
  -- Of each candidate pair, the id of its remote candidate.
  pub ice_candidate_pairs : List String

abbrev pub includes : String → List String → Bool
includes x [] = false
includes x (y ∷ ys) = y == x || includes x ys

turn_candidate_ids : PeerConnection → List String
turn_candidate_ids p =
    map (λ c. c.id) (select (λ c. c.candidate_type == "relay") p.ice_remote_candidates)

-- Some candidate pair has a relay for its remote candidate.
pub uses_turn : PeerConnection → Bool
unfolding turn_candidate_ids
uses_turn p = ltb 0 (length (select (λ r. includes r (turn_candidate_ids p)) p.ice_candidate_pairs))

-- `Set.add`
pub add : String → List String → List String
add x xs = if includes x xs then xs else x ∷ xs

collect : Option String → PeerConnection → List String → List String
unfolding add
collect none p clients = clients
collect (some id) p clients =
    if truthy (some id) then (if uses_turn p then add id clients else clients) else clients

pub clients_using_turn : List PeerConnection → List String → List String
clients_using_turn [] clients = clients
clients_using_turn (p ∷ ps) clients = clients_using_turn ps (collect p.client_id p clients)

-- The value of a gauge as a fraction; a denominator of 0 is JavaScript's division by zero.
pub record Percentage : Type 0 where
  pub numerator : ℕ
  pub denominator : ℕ

pub turn_usage : List PeerConnection → (number_of_clients : ℕ) → Percentage
unfolding clients_using_turn collect
turn_usage ps number_of_clients = record {
  numerator = length (clients_using_turn ps []) * 100;
  denominator = number_of_clients;
}

pub concurrent_rtp_streams : (inbound outbound : ℕ) → ℕ
concurrent_rtp_streams inbound outbound = inbound + outbound

-- A set has no element twice.
abbrev pub IsSetLike : List String → Type 0
IsSetLike [] = Unit {0}
IsSetLike (x ∷ xs) = (includes x xs ≡ false) × IsSetLike xs

abbrev pub is_client : String → Option String → Bool
is_client id none = false
is_client id (some j) = truthy (some j) && (j == id)

-- Some candidate has the id and is relayed.
abbrev pub names_relay : String → List IceCandidate → Bool
names_relay r [] = false
names_relay r (c ∷ cs) = (c.id == r && c.candidate_type == "relay") || names_relay r cs

-- Some pair has such a candidate for its remote one.
abbrev pub has_relay : List IceCandidate → List String → Bool
has_relay cs [] = false
has_relay cs (r ∷ rs) = names_relay r cs || has_relay cs rs

-- Whether a peer connection of the client has a pair with a relay.
abbrev pub relays : String → List PeerConnection → Bool
relays id [] = false
relays id (p ∷ ps) =
    (is_client id p.client_id && has_relay p.ice_remote_candidates p.ice_candidate_pairs)
    || relays id ps

includes-relays :
    (r : String) (cs : List IceCandidate)
    → includes r (map (λ (c : IceCandidate). c.id) (select (λ c. c.candidate_type == "relay") cs))
      ≡ names_relay r cs
includes-relays r [] = refl
includes-relays r (c ∷ cs) = elim (Bool-cases (c.candidate_type == "relay")) [
  | inl e ↦ rw e (ground (arith, includes-relays r cs))
  | inr e ↦ rw e (ground (arith, includes-relays r cs))
]

length-select :
    (ids : List String) (cs : List IceCandidate) (rs : List String)
    → ((r : String) → includes r ids ≡ names_relay r cs)
    → ltb 0 (length (select (λ r. includes r ids) rs)) ≡ has_relay cs rs
length-select ids cs [] h = refl
length-select ids cs (r ∷ rs) h = elim (Bool-cases (includes r ids)) [
  | inl e ↦ rw e (ground (arith, h r, e))
  | inr e ↦ rw e (ground (arith, h r, e, length-select ids cs rs h))
]

uses_turn_lem :
    (p : PeerConnection) → uses_turn p ≡ has_relay p.ice_remote_candidates p.ice_candidate_pairs
unfolding uses_turn turn_candidate_ids
uses_turn_lem p =
    length-select (turn_candidate_ids p) p.ice_remote_candidates p.ice_candidate_pairs
      (λ r. includes-relays r p.ice_remote_candidates)

collect-IsSetLike :
    (o : Option String) (p : PeerConnection) (xs : List String)
    → IsSetLike xs
    → IsSetLike (collect o p xs)
unfolding collect
collect-IsSetLike none p xs h = h
collect-IsSetLike (some id) p xs h = elim (Bool-cases (includes id xs)) [
  | inl old ↦ rw (old, collect) (ground (arith, h))
  | inr new ↦ rw (new, collect) (ground (arith, h, new))
]

includes-collect :
    (id : String) (o : Option String) (p : PeerConnection) (xs : List String)
    → includes id (collect o p xs) ≡ ((is_client id o && uses_turn p) || includes id xs)
unfolding collect
includes-collect id none p xs = refl
includes-collect id (some j) p xs = ground (arith, eq_iff j id)

clients_using_turn-IsSetLike :
    (ps : List PeerConnection) (xs : List String)
    → IsSetLike xs
    → IsSetLike (clients_using_turn ps xs)
unfolding clients_using_turn
clients_using_turn-IsSetLike [] xs h = h
clients_using_turn-IsSetLike (p ∷ ps) xs h =
    clients_using_turn-IsSetLike ps (collect p.client_id p xs)
      (collect-IsSetLike p.client_id p xs h)

includes-clients_using_turn :
    (id : String) (ps : List PeerConnection) (xs : List String)
    → includes id (clients_using_turn ps xs) ≡ (relays id ps || includes id xs)
unfolding clients_using_turn
includes-clients_using_turn id [] xs = refl
includes-clients_using_turn id (p ∷ ps) xs = ground (
  arith,
  includes-clients_using_turn id ps (collect p.client_id p xs),
  includes-collect id p.client_id p xs,
  uses_turn_lem p,
)

-- The set whose size the gauge of TURN usage takes holds each client once, and exactly the clients
-- that have a peer connection with a candidate pair whose remote candidate is a relay. A peer
-- connection with no client id counts for nobody.
pub clients_using_turn_lem :
    (ps : List PeerConnection) (id : String)
    → IsSetLike (clients_using_turn ps []) × (includes id (clients_using_turn ps []) ≡ relays id ps)
clients_using_turn_lem ps id =
    (clients_using_turn-IsSetLike ps [] tt, includes-clients_using_turn id ps [] ∙ ground arith)
