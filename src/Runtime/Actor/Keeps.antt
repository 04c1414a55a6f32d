-- ===== src/Runtime/Actor/Keeps.antt =====
-- Predicates on the variables of ts-core/src/runtime/actor.ts that the answer of an `await` keeps.
use mc_servant.Base.{ℕ, Option, none, some, get_elem?}
use mc_servant.Runtime.Actor.State.{Actor, Outcome, Thread}
use mc_servant.Runtime.Actor.{Answer, continue, take_thread, resume}

-- A predicate that does not depend on the calls in flight.
module _ (P : Actor → Type 0) (taken : (i : ℕ) (a : Actor) → P a → P (take_thread i a)) where
  -- What a waiting call does with an answer of its kind keeps it.
  abbrev pub Safe : Actor → Option (Actor → Outcome) → Type 0
  Safe a none = Unit
  Safe a (some rest) = P (rest a).0

  pub resume-keeps :
      ((t : Thread) (answer : Answer) (a : Actor) → P a → Safe a (continue t answer))
      → (i : ℕ) (answer : Answer) (a : Actor) → P a
      → P (resume i answer a).0
  unfolding resume
  resume-keeps keeps i answer a h = found (get_elem? a.threads i)
    where
      answered :
          (o : Option (Actor → Outcome))
          → Safe (take_thread i a) o
          → P (
              let p : Outcome = elim o [ none ↦ (a, none) | some rest ↦ rest (take_thread i a) ] in
              p.0)
      answered none s = h
      answered (some rest) s = s

      found :
          (o : Option Thread)
          → P (
              let p : Outcome = elim o [
                | none ↦ (a, none)
                | some t ↦ elim (continue t answer) [
                  | none ↦ (a, none)
                  | some rest ↦ rest (take_thread i a)
                ]
              ] in
              p.0)
      found none = h
      found (some t) = answered (continue t answer) (keeps t answer (take_thread i a) (taken i a h))
