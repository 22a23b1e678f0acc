-- ===== src/Auth/SignIn/Refused.antt =====
-- Callbacks that are turned away before Keycloak is asked anything.
use kc_jit_public.Base.{
  String, ◌≡◌, refl, ◌⊎◌, inl, inr, ◌<◌, some, none, err, ok, suc, Result-cases, lt→ltb,
}
use kc_jit_public.Config.{Config}
use kc_jit_public.Auth.Cookie.{Codec}
use kc_jit_public.Auth.SignIn.{
  Outside, PendingAuth, SignIn, lookup_state, delete_state, CallbackQuery, check_pending,
  take_state, check_query, handle_callback,
}
use kc_jit_public.Auth.SignIn.Once.{callback_unknown}

module _ (out : Outside) (cfg : Config) (codec : Codec) where
  -- The state is pending, but its ten minutes are over.
  abbrev pub IsLate : CallbackQuery → SignIn → Type 0
  IsLate q m =
      (p : PendingAuth) × (lookup_state q.state m.states ≡ some p) × (p.expiry < out.now m.readings)

  callback_late :
      (q : CallbackQuery) (m : SignIn)
      → check_query q ≡ ok tt
      → IsLate q m
      → handle_callback out cfg codec q m ≡ (
        err "invalid or expired state",
        record { states = delete_state q.state m.states; readings = suc m.readings },
      )
  unfolding handle_callback take_state check_pending
  callback_late q m fine (p, found, late) =
      rw (fine, found, lt→ltb p.expiry (out.now m.readings) late) refl

  callback_unfit :
      (q : CallbackQuery) (m : SignIn) (e : String)
      → check_query q ≡ err e
      → handle_callback out cfg codec q m ≡ (err e, m)
  unfolding handle_callback
  callback_unfit q m e unfit = rw unfit refl

  -- A callback whose query names an error, or no state or no code, or a state that is not pending,
  -- ends with an error and changes nothing. One with a state whose time is over ends with an error
  -- too, and all that it has done is to read the clock and to drop this state.
  pub callback_refused :
      (q : CallbackQuery) (m : SignIn)
      → ((e : String) × (check_query q ≡ err e))
        ⊎ (lookup_state q.state m.states ≡ none)
        ⊎ IsLate q m
      → (e : String) × ((handle_callback out cfg codec q m ≡ (err e, m))
          ⊎ (IsLate q m
              × (handle_callback out cfg codec q m ≡ (
                err e,
                record { states = delete_state q.state m.states; readings = suc m.readings },
              ))))
  callback_refused q m (inl (e, unfit)) = (e, inl (callback_unfit q m e unfit))
  callback_refused q m (inr (inl unknown)) =
      let (e, refused) = callback_unknown out cfg codec q m unknown in (e, inl refused)
  callback_refused q m (inr (inr late)) = elim (Result-cases (check_query q)) [
    | inl (u, fine) ↦ ("invalid or expired state", inr (late, callback_late q m fine late))
    | inr (e, unfit) ↦ (e, inl (callback_unfit q m e unfit))
  ]
