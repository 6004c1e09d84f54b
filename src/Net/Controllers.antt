-- ===== src/Net/Controllers.antt =====
-- The chains of middlewares of the two servers: `createIndexController` (sfu/src/controllers and
-- observer/src/controllers), `createPromController` (observer/src/controllers/promController.ts) and
-- the last middleware of each main.ts. The input is the request's `url`.
use demo_app.Base.{
  String, ◌==◌, ℕ, List, [], ◌∷◌, ◌≡◌, refl, ◌∙◌, Bool, false, Option, none, some, if◌then◌else◌,
  Bool-cases, inl, inr, not,
}
use text.Mathlib.Text.{starts_with}
use demo_app.Net.Middleware.{Middleware, process}
use demo_app.Net.Middleware.Order.{count_from, reach, process-ran}

pub data Response : Type 0 where
  -- `response.end('ok')`
  ok : Response
  -- the registry's metrics
  metrics : Response
  -- A warning is logged, and the request stays without a response.
  unprocessed : Response

abbrev pub is_text : Option String → String → Bool
is_text none s = false
is_text (some t) s = t == s

abbrev pub starts : Option String → String → Bool
starts none s = false
starts (some t) s = starts_with s t

-- What each middleware does: a response, or a call of `next`.
pub index_controller : Option String → Option Response
index_controller url = if not (is_text url "/") then none else some ok

pub prom_controller : Option String → Option Response
prom_controller url = if not (starts url "/metrics") then none else some metrics

pub last_middleware : Option String → Option Response
last_middleware url = some unprocessed

abbrev nexts : Option Response → ℕ
nexts none = 1
nexts (some r) = 0

pub observer_chain : List (Middleware (Option String))
unfolding index_controller prom_controller last_middleware
observer_chain =
    (λ url. nexts (index_controller url))
    ∷ (λ url. nexts (prom_controller url))
    ∷ (λ url. nexts (last_middleware url))
    ∷ []

pub sfu_chain : List (Middleware (Option String))
unfolding index_controller last_middleware
sfu_chain = (λ url. nexts (index_controller url)) ∷ (λ url. nexts (last_middleware url)) ∷ []

-- A request to the observer is answered by the first middleware that it is for and by no other: `/` by
-- the index controller, what begins with `/metrics` by the second, and all else reaches the last one.
pub observer_chain-ran :
    (url : Option String)
    → (process observer_chain url).ran ≡ (
        if is_text url "/"
        then 0 ∷ []
        else if starts url "/metrics"
        then 0 ∷ 1 ∷ []
        else 0 ∷ 1 ∷ 2 ∷ [])
unfolding observer_chain reach count_from
observer_chain-ran url =
    process-ran (Option String) url observer_chain ∙ elim (Bool-cases (is_text url "/")) [
      | inl root ↦ rw root refl
      | inr other ↦ elim (Bool-cases (starts url "/metrics")) [
        | inl prom ↦ rw (other, prom) refl
        | inr rest ↦ rw (other, rest) refl
      ]
    ]
