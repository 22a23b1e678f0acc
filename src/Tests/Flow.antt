-- ===== src/Tests/Flow.antt =====
-- A request from its creation to its end, in the small realm.
use kc_jit_public.Base.{refl}
use kc_jit_public.Time.Format.{format}
use kc_jit_public.Time.Parse.{parse}
use kc_jit_public.Store.Requests.{create, get, update}
use kc_jit_public.World.{World, time_now, exec, query, in_group, add_to_group, remove_from_group}
use kc_jit_public.World.Try.{continue, ◌>>=◌, lift, yield_value, stop_if, or_stop}
use kc_jit_public.Notify.{notify_once}
use kc_jit_public.Api.{new_id, actor_of, audit}
use kc_jit_public.Api.Create.{create_guard, create_noted, create_stored, create_of, handle_create}
use kc_jit_public.Api.Approve.{
  decoded, approve_guard, grant_noted, grant, approve_found, approve_of, handle_approve,
}
use kc_jit_public.Api.Release.{
  release_noted, release, may_release, release_found, release_by, handle_release,
}
use kc_jit_public.Authority.Create.{Submitted, create_authorised}
use kc_jit_public.Authority.Approve.{Approved, approve_authorised}
use kc_jit_public.Authority.Release.{Released, release_authorised}
use kc_jit_public.Tests.Setup.{Realm, env, svc, world, headers, create_body, first_id}

abbrev asked : World Realm
asked = (handle_create env svc (headers "alice") create_body world).1

abbrev granted : World Realm
granted = (handle_approve env svc (headers "bob") (decoded "ticket 4711 checked") first_id asked).1

create_authorised_example : Submitted env svc (headers "alice") create_body world asked
unfolding handle_create create_of create_guard create_stored create_noted ◌>>=◌ continue lift
    stop_if or_stop yield_value actor_of in_group time_now new_id exec create audit notify_once
    kc_jit_public.Text.trim_space kc_jit_public.Text.byte_len
create_authorised_example = create_authorised env svc (headers "alice") create_body world refl

approve_authorised_example :
    Approved env svc (headers "bob") (decoded "ticket 4711 checked") first_id asked granted
unfolding handle_create create_of create_guard create_stored create_noted ◌>>=◌ continue lift
    stop_if or_stop yield_value actor_of in_group time_now new_id exec create audit notify_once
    handle_approve approve_of approve_guard approve_found grant grant_noted query get update
    add_to_group kc_jit_public.Text.trim_space kc_jit_public.Text.byte_len
    kc_jit_public.Notify.pending_approvers parse format kc_jit_public.Time.Calendar.year_of
    kc_jit_public.Time.Calendar.month_of
approve_authorised_example =
    approve_authorised env svc (headers "bob") (decoded "ticket 4711 checked") first_id asked refl

release_authorised_example :
    Released env svc
      (headers "alice")
      first_id
      granted
      (handle_release env svc (headers "alice") first_id granted).1
unfolding handle_create create_of create_guard create_stored create_noted ◌>>=◌ continue lift
    stop_if or_stop yield_value actor_of in_group time_now new_id exec create audit notify_once
    handle_approve approve_of approve_guard approve_found grant grant_noted query get update
    add_to_group remove_from_group handle_release release_by release_found may_release release
    release_noted kc_jit_public.Text.trim_space kc_jit_public.Text.byte_len
    kc_jit_public.Notify.pending_approvers parse format kc_jit_public.Time.Calendar.year_of
    kc_jit_public.Time.Calendar.month_of kc_jit_public.Notify.approved
release_authorised_example = release_authorised env svc (headers "alice") first_id granted refl
