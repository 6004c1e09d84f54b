-- ===== src/Observer/Evaluators.antt =====
-- The evaluators of the observer (observer/src/evaluators), each a closure called with the changes of
-- one evaluation.
pub mod Calls
pub mod Common
pub mod Gauges
