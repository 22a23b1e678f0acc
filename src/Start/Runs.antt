-- ===== src/Start/Runs.antt =====
-- A run of the process, as a history of the service that begins with the tables of its file.
use kc_jit_public.Base.{
  String, ◌^^◌, ◌≡◌, refl, sym, ap, ◌∙◌, ◌⊎◌, inl, inr, List, [], ◌∷◌, map, Option, none, some, err,
  Result-cases,
}
use kc_jit_public.Time.{Duration}
use kc_jit_public.Config.{Environ, from_env}
use kc_jit_public.Store.{Db}
use kc_jit_public.Store.Keys.{Keyed}
use kc_jit_public.Store.Open.{Engine, File, db_of, open_store}
use kc_jit_public.Store.Open.Kept.{open_store-keeps}
use kc_jit_public.World.{Env}
use kc_jit_public.Auth.Cookie.{Codec}
use kc_jit_public.Auth.SignIn.{Outside}
use kc_jit_public.Ui.{Files}
use kc_jit_public.Api.{Service}
use kc_jit_public.Router.{Event, http, tick, handle, serve}
use kc_jit_public.Lifecycle.{Changes}
use kc_jit_public.Lifecycle.Serve.{serve-Changes}
use kc_jit_public.Start.{
  Happening, arrives, fires, Pim, service_of, answer_to, happen, happenings, fatal, end_of,
  new_world, run_service, run_main,
}

end_of_inj :
    {K : Type 0} (failure : Option String) (p q : Pim K)
    → end_of failure p ≡ end_of failure q
    → p ≡ q
end_of_inj none p q e = cc
end_of_inj (some m) p q e = cc

end_of_late :
    {K : Type 0} (failure : Option String) (p : Pim K) {m : String} → fatal m ≡ end_of failure p → ⊥
end_of_late none p e = cc
end_of_late (some m) p e = cc

abbrev pub event_of : Happening → Event
event_of (arrives a) = http a.request
event_of fires = tick

module _ {K : Type 0} (env : Env K) (out : Outside) (files : Files) (svc : Service) where
  happen-handle :
      (h : Happening) (p : Pim K)
      → (happen env out files svc h p).world ≡ handle env svc (event_of h) p.world
  unfolding happen answer_to handle
  happen-handle (arrives a) p = refl
  happen-handle fires p = refl

  happenings-serve :
      (hs : List Happening) (p : Pim K)
      → (happenings env out files svc hs p).world ≡ serve env svc (map event_of hs) p.world
  unfolding happenings serve
  happenings-serve [] p = refl
  happenings-serve (h ∷ hs) p =
      happenings-serve hs (happen env out files svc h p)
      ∙ ap (serve env svc (map event_of hs)) (happen-handle h p)

module _ {K : Type 0} (env : Env K) (out : Outside) (files : Files) (codec : Codec) where
  run_service-serve :
      (svc : Service) (hs : List Happening) (kc : K) (db : Db)
      → (run_service env out files codec svc hs kc db).world
        ≡ serve env svc (tick ∷ map event_of hs) (new_world env out files codec db kc)
  unfolding run_service serve handle
  run_service-serve svc hs kc db = happenings-serve env out files svc hs _

  module _ (engine : Engine) (parse_duration : String → Option Duration) (environ : Environ) where
    abbrev pub svc_of : Service
    svc_of = service_of codec (from_env parse_duration environ)

    -- A run ends at its start, with the error of `Open`, or what it leaves is what the history of a
    -- first round, its requests and its ticks leaves, begun with the tables of the file as they read:
    -- what signs visitors in and out, and the static files, touch neither the store nor Keycloak's
    -- groups nor the webhook.
    pub run_main-serve :
        (file : File) (kc : K) (hs : List Happening) (failure : Option String)
        → ((m : String) × ((open_store engine file).0 ≡ err m)
            × (run_main env out files codec engine parse_duration environ file kc hs failure
                ≡ fatal ("db: " ^^ m)))
          ⊎ ((p : Pim K) × (run_main env out files codec engine parse_duration environ file kc hs
                  failure
                ≡ end_of failure p)
              × (p.world
                  ≡ serve env svc_of
                      (tick ∷ map event_of hs)
                      (new_world env out files codec (db_of file) kc)))
    unfolding run_main
    run_main-serve file kc hs failure = elim (Result-cases (open_store engine file).0) [
      | inr (m, fails) ↦ inl (m, fails, rw fails refl)
      | inl (db, opens) ↦
          let same = (open_store-keeps engine file).1 db opens in
          let p = run_service env out files codec svc_of hs kc db in
          inr (
            p,
            rw opens refl,
            run_service-serve svc_of hs kc db
                ∙ ap
                    (λ d.
                      serve env svc_of (tick ∷ map event_of hs)
                        (new_world env out files codec d kc))
                    same,
          )
    ]

    -- From a file whose requests have distinct ids, a run of the process changes the table of requests
    -- only by the steps of the lifecycle, and the ids stay distinct.
    pub run_main-Changes :
        (file : File) (kc : K) (hs : List Happening) (failure : Option String) (p : Pim K)
        → Keyed (db_of file).requests
        → run_main env out files codec engine parse_duration environ file kc hs failure
          ≡ end_of failure p
        → Changes svc_of (db_of file).requests p.world.db.requests × Keyed p.world.db.requests
    run_main-Changes file kc hs failure p keyed h = elim (run_main-serve file kc hs failure) [
      | inl (m, fails, e) ↦ absurd (end_of_late failure p (sym e ∙ h))
      | inr (q, e, same) ↦
          let one = end_of_inj failure q p (sym e ∙ h) in
          rw (← one, same)
            (serve-Changes env svc_of (tick ∷ map event_of hs)
              (new_world env out files codec (db_of file) kc) keyed)
    ]
