-- ===== src/Api/Reconcile.antt =====
-- `Reconcile`: what has run out is expired or revoked. The worker calls it at each tick, and
-- `main` once at the start. What it logs is not modelled.
use kc_jit_public.Base.{String, false, List, [], ◌∷◌, Result, ok, err}
use kc_jit_public.Store.{Request}
use kc_jit_public.Store.Requests.{update, pending_expired, active_expired}
use kc_jit_public.World.{Env, Act, time_now, exec, query, remove_from_group}
use kc_jit_public.World.Try.{Try, ◌>>=◌, ◌>>◌, lift, or_stop}
use kc_jit_public.Notify as Notify
use kc_jit_public.Api.{Service, send_or_not, audit}
use kc_jit_public.Api.Approve.{expire_of}
use kc_jit_public.Api.Release.{release_of}

module _ {K : Type 0} (env : Env K) (svc : Service) where
  -- The rest of a round, after the row was written or was not.
  unfoldable pub expire_noted : Request → Result (Unit {0}) → Act K (Unit {0})
  expire_noted req (err m) w = (tt, w)
  expire_noted req (ok _) w =
      send_or_not svc.notify (λ n. Notify.request_expired env n (expire_of req))
        (audit env svc "request_expired" "system" req.username req.id req.justification
          "request TTL elapsed" false w).1

  -- One round of the loop over the pending requests.
  unfoldable pub expire_one : Request → Act K (Unit {0})
  unfolding exec expire_noted
  expire_one req w =
      let (written, w') = exec env (λ fault. update fault (expire_of req)) w in
      expire_noted req written w'

  unfoldable pub expire_all : List Request → Act K (Unit {0})
  unfolding expire_one
  expire_all [] w = (tt, w)
  expire_all (req ∷ reqs) w = expire_all reqs (expire_one req w).1

  unfoldable pub revoke_noted : Request → Result (Unit {0}) → Act K (Unit {0})
  revoke_noted req (err m) w = (tt, w)
  revoke_noted req (ok _) w =
      send_or_not svc.notify (λ n. Notify.released env n req "expire")
        (audit env svc "grant_expired" "system" req.username req.id req.justification
          "active TTL elapsed; revoked" false w).1

  unfoldable pub revoke_removed : Request → Result (Unit {0}) → Act K (Unit {0})
  unfolding exec time_now revoke_noted
  revoke_removed req (err m) w = (tt, w)
  revoke_removed req (ok _) w =
      let (now, w₁) = time_now env w in
      let (written, w₂) = exec env (λ fault. update fault (release_of now req)) w₁ in
      revoke_noted (release_of now req) written w₂

  -- One round of the loop over the grants.
  unfoldable pub revoke_one : Request → Act K (Unit {0})
  unfolding remove_from_group revoke_removed
  revoke_one req w =
      let (removed, w') = remove_from_group env req.username svc.cfg.group_active w in
      revoke_removed req removed w'

  unfoldable pub revoke_all : List Request → Act K (Unit {0})
  unfolding revoke_one
  revoke_all [] w = (tt, w)
  revoke_all (req ∷ reqs) w = revoke_all reqs (revoke_one req w).1

  unfoldable pub reconcile : Try K String (Unit {0})
  reconcile = do
    now ← lift (time_now env)
    found ← lift (query env λ fault. pending_expired fault now)
    due ← or_stop (λ m. m) found
    lift (expire_all due)
    found' ← lift (query env λ fault. active_expired fault now)
    over ← or_stop (λ m. m) found'
    lift (revoke_all over)
