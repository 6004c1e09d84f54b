-- ===== src/Observer/Evaluators/Calls.antt =====
-- `createCallsEvaluator` of observer/src/evaluators/callsEvaluator.ts. Of a call the closure keeps the
-- most participants seen; an observation of the histogram is
-- kept as the two times whose difference, in minutes, it is of.
use demo_app.Base.{
  String, ◌==◌, eq_iff, ℕ, suc, ◌+◌, max, List, [], ◌∷◌, ◌≡◌, refl, ◌∙◌, Bool, true, false, Option,
  none, some, truthy, ◌&&◌, ◌||◌, ap, is_some, if◌then◌else◌, arith,
}
use demo_app.Base.JsMap
use demo_app.Base.JsMap.{JsMap, get}

pub record EndedCall : Type 0 where
  pub call_id : Option String
  pub service_id : Option String
  pub room_id : String
  pub started : ℕ
  pub ended : ℕ

pub record Report : Type 0 where
  pub service_id : String
  pub call_id : String
  pub room_id : String
  pub timestamp : ℕ
  pub max_participants : ℕ

pub record Evaluator : Type 0 where
  pub summaries : JsMap ℕ
  pub durations : List (ℕ × ℕ)
  pub reports : List Report

-- The calls of the storage, each with the number of its clients.
abbrev pub Storage : Type 0
Storage = List (String × ℕ)

observe_durations : List EndedCall → Evaluator → Evaluator
observe_durations [] s = s
observe_durations (c ∷ cs) s =
    observe_durations cs (record s { durations = (c.ended, c.started) ∷ s.durations })

abbrev service_of : EndedCall → String
service_of c = elim c.service_id [ none ↦ "myServiceId" | some i ↦ i ]

report_at : ℕ → EndedCall → String → Evaluator → Evaluator
report_at now c id s = elim (get id s.summaries) [
  | none ↦ s
  | some n ↦ record s {
    reports =
        record {
          service_id = service_of c;
          call_id = id;
          room_id = c.room_id;
          timestamp = now;
          max_participants = n;
        }
        ∷ s.reports;
    summaries = JsMap.delete id s.summaries;
  }
]

report_one : ℕ → EndedCall → Option String → Evaluator → Evaluator
unfolding report_at
report_one now c none s = s
report_one now c (some id) s = if truthy (some id) then report_at now c id s else s

pub report_ended : ℕ → List EndedCall → Evaluator → Evaluator
report_ended now [] s = s
report_ended now (c ∷ cs) s = report_ended now cs (report_one now c c.call_id s)

abbrev pub or_zero : Option ℕ → ℕ
or_zero none = 0
or_zero (some n) = n

pub update_summaries : Storage → Evaluator → Evaluator
update_summaries [] s = s
update_summaries ((id, clients) ∷ cs) s =
    update_summaries cs (record s {
      summaries = JsMap.set id (max (or_zero (get id s.summaries)) clients) s.summaries;
    })

pub evaluate : ℕ → List EndedCall → Storage → Evaluator → Evaluator
unfolding observe_durations report_ended report_one update_summaries
evaluate now ended storage s =
    update_summaries storage (report_ended now ended (observe_durations ended s))

-- The most clients that the storage lists for a call, or the number given.
abbrev pub most : String → Storage → ℕ → ℕ
most id [] n = n
most id ((k, clients) ∷ cs) n = most id cs (if k == id then max n clients else n)

-- Whether the storage lists a call.
abbrev pub lists : String → Storage → Bool
lists id [] = false
lists id ((k, clients) ∷ cs) = if k == id then true else lists id cs

-- The summary of a call is the most of what it was and of what the storage lists for the call.
pub get-update_summaries :
    (id : String) (storage : Storage) (s : Evaluator)
    → or_zero (get id (update_summaries storage s).summaries)
      ≡ most id storage (or_zero (get id s.summaries))
unfolding update_summaries
get-update_summaries id [] s = refl
get-update_summaries id ((k, clients) ∷ cs) s =
    let n = max (or_zero (get k s.summaries)) clients in
    let v : or_zero (get id (JsMap.set k n s.summaries)) ≡ (
        if k == id
        then max (or_zero (get id s.summaries)) clients
        else or_zero (get id s.summaries)) =
      ground (arith, JsMap.get-set k id n s.summaries, eq_iff k id) in
    get-update_summaries id cs (record s { summaries = JsMap.set k n s.summaries })
    ∙ ap (most id cs) v

-- How many reports there are of a call.
abbrev pub count : String → List Report → ℕ
count id [] = 0
count id (r ∷ rs) = let n = count id rs in if r.call_id == id then suc n else n

-- Whether a call is among the ended ones. An ended call with no id, or the empty one, is passed over.
abbrev pub is_id : String → Option String → Bool
is_id id none = false
is_id id (some j) = truthy (some j) && (j == id)

abbrev pub ends : String → List EndedCall → Bool
ends id [] = false
ends id (c ∷ cs) = is_id id c.call_id || ends id cs

report_one_lem :
    (id : String) (now : ℕ) (c : EndedCall) (o : Option String) (s : Evaluator)
    → let t = report_one now c o s in
      (count id t.reports
        ≡ count id s.reports + (if is_id id o && is_some (get id s.summaries) then 1 else 0))
      × (get id t.summaries ≡ (if is_id id o then none else get id s.summaries))
unfolding report_one
report_one_lem id now c none s = ground arith
report_one_lem id now c (some j) s = ground (arith, JsMap.get-delete j id s.summaries, eq_iff j id)

-- Of a call that has a summary, an evaluation in which the call is among the ended ones makes one
-- report, however often it is listed, and the summary is gone after that; of any other call it makes
-- none.
pub report_ended_lem :
    (id : String) (now : ℕ) (cs : List EndedCall) (s : Evaluator)
    → let t = report_ended now cs s in
      (count id t.reports
        ≡ count id s.reports + (if ends id cs && is_some (get id s.summaries) then 1 else 0))
      × (get id t.summaries ≡ (if ends id cs then none else get id s.summaries))
unfolding report_ended
report_ended_lem id now [] s = ground arith
report_ended_lem id now (c ∷ cs) s = ground (
  arith,
  report_one_lem id now c c.call_id s,
  report_ended_lem id now cs (report_one now c c.call_id s),
)
