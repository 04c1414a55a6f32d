-- ===== src/Runtime/Actor/Shutdown.antt =====
-- A bot that is shut down starts no more code: ts-core/src/runtime/actor.ts.
use mc_servant.Base.{ℕ, ◌≡◌, refl, ◌∙◌, List, [], ◌∷◌, arith}
use mc_servant.Runtime.Contracts.{shutdown}
use mc_servant.Runtime.Actor.State.{
  Actor, Thread, connecting, logged_in, readying, writing, settled, running, reflexes,
}
use mc_servant.Runtime.Actor.Resume.{
  after_connect, after_chat, after_write, after_login, after_ready, after_sandbox, after_reflex,
  returned, threw,
}
use mc_servant.Runtime.Actor.Calls.{
  start, broadcast, write_chat, execute_code, interrupt_actor, shut_down,
}
use mc_servant.Runtime.Actor.Keeps.{Safe, resume-keeps}
use mc_servant.Runtime.Actor.{Answer, done, sandbox, reflexed, Event, resumes, continue, step, run}

-- Shut down, with `n` executions begun so far.
abbrev Closed : ℕ → Actor → Type 0
Closed n a = (a.status ≡ shutdown) × (a.next_execution ≡ n)

continue-Closed :
    (n : ℕ) (t : Thread) (answer : Answer) (a : Actor)
    → Closed n a
    → Safe (Closed n) (λ i b k. k) a (continue t answer)
unfolding continue after_connect after_chat after_write after_login after_ready after_sandbox
    after_reflex
continue-Closed n connecting (done b) a h = ground arith
continue-Closed n logged_in (done b) a h = ground arith
continue-Closed n readying (done b) a h = ground arith
continue-Closed n (writing p w) (done b) a h = ground arith
continue-Closed n (settled p w b) (done r) a h = ground arith
continue-Closed n (running x m) (sandbox (returned s k) event) a h = ground arith
continue-Closed n (running x m) (sandbox (threw e) event) a h = ground arith
continue-Closed n (reflexes signal threat) (reflexed answer) a h = ground arith
continue-Closed n _ _ a h = tt

step-Closed : (n : ℕ) (a : Actor) (e : Event) → Closed n a → Closed n (step a e).0
unfolding step start broadcast write_chat execute_code interrupt_actor shut_down
step-Closed n a (resumes i answer) h =
    resume-keeps (Closed n) (λ i b k. k) (continue-Closed n) i answer a h
step-Closed n a _ h = ground arith

-- Once the bot is shut down, no history of calls and answers changes its status or begins another
-- execution.
pub run-shutdown :
    (a : Actor) (es : List Event)
    → a.status ≡ shutdown
    → ((run a es).status ≡ shutdown) × ((run a es).next_execution ≡ a.next_execution)
unfolding run
run-shutdown a [] h = (h, refl)
run-shutdown a (e ∷ es) h =
    let (s, n) = step-Closed a.next_execution a e (h, refl) in
    let (s', n') = run-shutdown (step a e).0 es s in (s', n' ∙ n)
