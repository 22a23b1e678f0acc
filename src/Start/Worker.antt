-- ===== src/Start/Worker.antt =====
-- `worker.Run` (internal/worker/worker.go): rounds of `Reconcile`, until the context is done.
use kc_jit_public.Base.{
  ℕ, zero, suc, Bool, true, false, not, ◌&&◌, ◌||◌, List, [], ◌∷◌, if◌then◌else◌,
}
use kc_jit_public.World.{Env, World}
use kc_jit_public.Api.{Service}
use kc_jit_public.Api.Reconcile.{reconcile}

-- What happens around the loop: the ticker's interval passes, the context is cancelled, or the loop
-- comes to its `select`. Where both cases are ready there, the runtime chooses; `turns true` is that
-- it would choose the context.
pub data Moment : Type 0 where
  elapses cancels : Moment
  turns : Bool → Moment

-- The loop with its two channels. The ticker's channel holds one tick at most.
pub record Loop (K : Type 0) : Type 0 where
  pub world : World K
  pub ticked : Bool
  pub cancelled : Bool
  pub returned : Bool

-- So many copies.
abbrev pub repeat {ℓ} : {A : Type ℓ} → ℕ → A → List A
repeat zero a = []
repeat (suc n) a = a ∷ repeat n a

module _ {K : Type 0} (env : Env K) (svc : Service) where
  -- `time.NewTicker`, and the loop before its first `select`.
  abbrev pub started : World K → Loop K
  started w = record { world = w; ticked = false; cancelled = false; returned = false }

  -- One `select`: it returns, runs a round, whose error is only logged, or waits on.
  unfoldable pub select : Bool → Loop K → Loop K
  unfolding reconcile
  select chosen s =
      if s.cancelled && (chosen || not s.ticked)
      then record s { returned = true }
      else if s.ticked
      then record s { world = (reconcile env svc s.world).1; ticked = false }
      else s

  -- A tick that comes while one waits is dropped.
  unfoldable pub run_moment : Moment → Loop K → Loop K
  unfolding select
  run_moment elapses s = record s { ticked = true }
  run_moment cancels s = record s { cancelled = true }
  run_moment (turns chosen) s = if s.returned then s else select chosen s

  unfoldable pub run_worker : List Moment → Loop K → Loop K
  unfolding run_moment
  run_worker [] s = s
  run_worker (m ∷ ms) s = run_worker ms (run_moment m s)
