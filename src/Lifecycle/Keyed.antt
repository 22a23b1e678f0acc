-- ===== src/Lifecycle/Keyed.antt =====
-- The steps of the lifecycle keep the ids of the table distinct.
use kc_jit_public.Base.{List}
use kc_jit_public.Store.{Row}
use kc_jit_public.Store.Requests.{to_row}
use kc_jit_public.Store.Keys.{Keyed, append-Keyed, update_rows-Keyed}
use kc_jit_public.Api.{Service}
use kc_jit_public.Lifecycle.{Change, Changes, submit, expire, grant, release, none_made, and_then}

module _ (svc : Service) where
  pub Change-Keyed : {rows rows' : List Row} → Change svc rows rows' → Keyed rows → Keyed rows'
  unfolding to_row
  Change-Keyed {rows} (submit id username justification now fresh) k = append-Keyed rows _ k fresh
  Change-Keyed {rows} (expire req h p) k = update_rows-Keyed _ rows k
  Change-Keyed {rows} (grant req actor notes now h p named long) k = update_rows-Keyed _ rows k
  Change-Keyed {rows} (release req now h p) k = update_rows-Keyed _ rows k

  pub Changes-Keyed : {rows rows' : List Row} → Changes svc rows rows' → Keyed rows → Keyed rows'
  Changes-Keyed none_made k = k
  Changes-Keyed (and_then cs c) k = Change-Keyed c (Changes-Keyed cs k)
