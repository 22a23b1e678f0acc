-- ===== src/Tests/Refusals.antt =====
-- Calls of the API that are turned away.
use kc_jit_public.Base.{ℕ, ◌≢◌, arith}
use kc_jit_public.Api.Create.{handle_create}
use kc_jit_public.Api.Approve.{decoded, handle_approve}
use kc_jit_public.Api.Release.{handle_release}
use kc_jit_public.Authority.Clean.{Unchanged}
use kc_jit_public.Authority.Left.{create_refused, approve_refused, release_refused}
use kc_jit_public.Tests.Setup.{env, svc, world, headers, create_body}

forbidden_not_created : ◌≢◌ {A = ℕ} 403 201
forbidden_not_created = omega arith

forbidden_not_ok : ◌≢◌ {A = ℕ} 403 200
forbidden_not_ok = omega arith

forbidden_not_conflict : ◌≢◌ {A = ℕ} 403 409
forbidden_not_conflict = omega arith

missing_not_ok : ◌≢◌ {A = ℕ} 404 200
missing_not_ok = omega arith

create_refused_example :
    Unchanged world (handle_create env svc (headers "mallory") create_body world).1
unfolding handle_create kc_jit_public.Api.Create.create_of kc_jit_public.World.Try.◌>>=◌
    kc_jit_public.Api.Create.create_guard kc_jit_public.World.Try.lift
    kc_jit_public.World.Try.or_stop kc_jit_public.World.Try.stop_if kc_jit_public.Text.trim_space
    kc_jit_public.Api.actor_of kc_jit_public.Text.byte_len kc_jit_public.World.in_group
create_refused_example =
    create_refused env svc (headers "mallory") create_body world forbidden_not_created

approve_refused_example :
    Unchanged world (handle_approve env svc (headers "alice") (decoded "looks fine") "02ab" world).1
unfolding handle_approve kc_jit_public.Api.Approve.approve_of kc_jit_public.World.Try.◌>>=◌
    kc_jit_public.Api.Approve.approve_guard kc_jit_public.World.Try.lift
    kc_jit_public.World.Try.stop_if kc_jit_public.Api.actor_of kc_jit_public.Text.trim_space
    kc_jit_public.World.Try.or_stop kc_jit_public.World.in_group
approve_refused_example =
    approve_refused env svc (headers "alice") (decoded "looks fine") "02ab" world forbidden_not_ok
      forbidden_not_conflict

release_refused_example : Unchanged world (handle_release env svc (headers "alice") "02ab" world).1
unfolding handle_release kc_jit_public.Api.Release.release_by kc_jit_public.World.Try.◌>>=◌
    kc_jit_public.World.Try.lift kc_jit_public.Api.Release.release_found
    kc_jit_public.World.Try.or_stop kc_jit_public.World.query kc_jit_public.Store.Requests.get
    kc_jit_public.Api.actor_of
release_refused_example = release_refused env svc (headers "alice") "02ab" world missing_not_ok
