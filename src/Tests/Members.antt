-- ===== src/Tests/Members.antt =====
-- Who is in the active group of the small realm.
use kc_jit_public.Base.{
  String, ◌≡◌, refl, ◌⊎◌, inl, inr, Bool, true, ◌&&◌, [], ◌∷◌, arith, ◌==◌, eq_iff, Bool-cases,
}
use kc_jit_public.Time.Format.{format}
use kc_jit_public.Time.Parse.{parse}
use kc_jit_public.Store.Requests.{create, get, update}
use kc_jit_public.World.{World, time_now, exec, query, in_group, add_to_group}
use kc_jit_public.World.Try.{next, continue, ◌>>=◌, lift, yield_value, stop_if, or_stop}
use kc_jit_public.Notify.{notify_once}
use kc_jit_public.Api.{new_id, actor_of, audit}
use kc_jit_public.Api.Create.{create_guard, create_noted, create_stored, create_of, handle_create}
use kc_jit_public.Api.Approve.{
  approve_guard, grant_noted, grant, approve_found, approve_of, handle_approve,
}
use kc_jit_public.Api.Reconcile.{expire_all, revoke_all, reconcile}
use kc_jit_public.Router.{tick, serve, handle, dispatch, route}
use kc_jit_public.Lifecycle.Rules.{rows_of}
use kc_jit_public.Settled.Reconcile.{Answers}
use kc_jit_public.Members.{Honest, Backed}
use kc_jit_public.Members.Serve.{serve-Backed}
use kc_jit_public.Members.InTime.{InTime, round-InTime}
use kc_jit_public.Tests.Setup.{Realm, is_member, env, svc, world, ask, let_in, give_back}

abbrev active : Realm → String → Bool
active realm v = is_member (v, "admin-active") realm

added :
    (user v : String) (realm : Realm)
    → active ((user, "admin-active") ∷ realm) v ≡ true
    → (active realm v ≡ true) ⊎ (v ≡ user)
added user v realm h = elim (Bool-cases (v == user)) [
  | inl same ↦ inr ((eq_iff v user).0 same)
  | inr other ↦ inl (rw other at h)
]

removed :
    (user v : String) (realm : Realm)
    → active (env.groups.remove_from_group user "admin-active" realm).1 v ≡ true
    → (active realm v ≡ true) × ¬ (v ≡ user)
removed user v [] h = absurd (ground arith)
removed user v ((u, group) ∷ realm) h = elim (Bool-cases (user == u && "admin-active" == group)) [
  | inl gone ↦ let (before, other) = removed user v realm (rw gone at h) in (ground arith, other)
  | inr stays ↦ elim (Bool-cases (v == u && "admin-active" == group)) [
    | inl this ↦ (ground arith, λ same. cc)
    | inr another ↦
        let (before, other) = removed user v realm (ground arith) in (ground arith, other)
  ]
]

abbrev honest : Honest env svc
honest = record {
  is_active = active;
  runs = λ n. refl;
  asks = λ user group v kc member. member;
  adds = λ user v kc member. elim (added user v kc member) [
    | inl before ↦ inl before
    | inr same ↦ inr (refl, same)
  ];
  removes =
      λ user v kc member. let (before, other) = removed user v kc member in (before, λ good. other);
}

nobody : Backed env svc honest world
nobody = record { keyed = tt; holds = tt; covers = λ v member. absurd (ground arith) }

-- A request is made, approved and given back, with a tick of the worker between.
serve-Backed_example :
    Backed env svc honest (serve env svc (ask ∷ let_in ∷ tick ∷ give_back ∷ []) world)
serve-Backed_example =
    serve-Backed env svc honest (ask ∷ let_in ∷ tick ∷ give_back ∷ []) world nobody

answers : Answers env
answers = record { runs = λ n. refl; removes = λ user group kc. refl }

-- The request is made and approved, and the round leaves the user in the group.
abbrev granted : World Realm
granted = serve env svc (ask ∷ let_in ∷ []) world

round-InTime_example :
    ((reconcile env svc granted).0 ≡ next tt)
    × InTime svc (env.now granted.readings) (rows_of (reconcile env svc granted).1) "alice"
unfolding serve handle dispatch route handle_create create_of create_guard create_stored
    create_noted ◌>>=◌ continue lift stop_if or_stop yield_value actor_of in_group time_now new_id
    exec create audit notify_once handle_approve approve_of approve_guard approve_found grant
    grant_noted query get update add_to_group reconcile expire_all revoke_all
    kc_jit_public.Text.trim_space kc_jit_public.Text.byte_len kc_jit_public.Notify.pending_approvers
    parse format kc_jit_public.Time.Calendar.year_of kc_jit_public.Time.Calendar.month_of
    kc_jit_public.Notify.approved kc_jit_public.Store.Requests.pending_expired
    kc_jit_public.Store.Requests.active_expired kc_jit_public.Time.Format.text_le
round-InTime_example =
    round-InTime env svc honest answers (ask ∷ let_in ∷ []) world "alice" nobody tt
      (record { created = _; expires = _; read_created = refl; read_expires = refl }, tt)
      (omega arith) refl
