-- ===== src/Start/Ends.antt =====
-- When `worker.Run` returns, and which rounds it has run.
use kc_jit_public.Base.{
  if◌then◌else◌, ℕ, suc, ◌+◌, ◌≤◌, ◌≡◌, ◌⊎◌, Bool, true, false, List, [], ◌∷◌, ◌++◌,
}
use kc_jit_public.World.{Env, World}
use kc_jit_public.Api.{Service}
use kc_jit_public.Router.{tick, serve}
use kc_jit_public.Start.Worker.{Moment, elapses, cancels, turns, Loop, repeat, started, run_worker}

-- How often the interval passes, and how often the loop comes to its `select`.
abbrev pub elapsed : List Moment → ℕ
elapsed [] = 0
elapsed (elapses ∷ ms) = suc (elapsed ms)
elapsed (_ ∷ ms) = elapsed ms

abbrev pub turned : List Moment → ℕ
turned [] = 0
turned (turns chosen ∷ ms) = suc (turned ms)
turned (_ ∷ ms) = turned ms

-- Whether the interval has passed since the last turn, where at first it had or had not.
abbrev pub waits : Bool → List Moment → Bool
waits b [] = b
waits b (elapses ∷ ms) = waits true ms
waits b (cancels ∷ ms) = waits b ms
waits b (turns chosen ∷ ms) = waits false ms

-- How many turns have come after an interval that had passed since the turn before.
abbrev pub due_turns : Bool → List Moment → ℕ
due_turns b [] = 0
due_turns b (elapses ∷ ms) = due_turns true ms
due_turns b (cancels ∷ ms) = due_turns b ms
due_turns true (turns chosen ∷ ms) = suc (due_turns false ms)
due_turns false (turns chosen ∷ ms) = due_turns false ms

-- The context is not cancelled.
abbrev pub IsQuiet : List Moment → Type 0
IsQuiet [] = Unit
IsQuiet (cancels ∷ ms) = ⊥
IsQuiet (_ ∷ ms) = IsQuiet ms

abbrev pub count : Bool → ℕ
count b = if b then 1 else 0

module _ {K : Type 0} (env : Env K) (svc : Service) where
  abbrev rounds : ℕ → World K → World K
  rounds n = serve env svc (repeat n tick)

  -- What the loop may still do: rounds for the tick that waits and for those that come, one in each
  -- turn in which it does not return.
  record Still (b : Bool) (ms : List Moment) (w : World K) (s : Loop K) : Type 0 where
    more : ℕ
    few : more ≤ count b + elapsed ms
    left : s.world ≡ rounds more w
    either : (s.returned ≡ true) ⊎ (turned ms ≡ more)

  abbrev ending : Bool → World K → Loop K
  ending b w = record { world = w; ticked = b; cancelled = true; returned = false }

  -- How the loop ends that has been cancelled after some moments.
  pub record Ends (before after : List Moment) (w : World K) : Type 0 where
    pub at_work : (run_worker env svc before (started env svc w)).returned ≡ false
    pub served :
        (run_worker env svc before (started env svc w)).world
        ≡ serve env svc (repeat (due_turns false before) tick) w
    pub returns :
        (run_worker env svc (before ++ cancels ∷ after) (started env svc w)).returned ≡ true
    pub more : ℕ
    pub few : more ≤ count (waits false before) + elapsed after
    pub left :
        (run_worker env svc (before ++ cancels ∷ after) (started env svc w)).world
        ≡ serve env svc (repeat (due_turns false before) tick ++ repeat more tick) w
