-- ===== src/Store/Notifications.antt =====
-- internal/store/notify.go: the table `notifications`.
use kc_jit_public.Base.{
  String, Bool, true, false, ◌&&◌, ◌||◌, List, [], ◌∷◌, none, some, Result, ok, err, ◌==◌,
  if◌then◌else◌,
}
use kc_jit_public.Store.{Db, Fault}

abbrev pub same_key : String × String → String × String → Bool
same_key (i, k) (j, l) = i == j && k == l

unfoldable pub is_marked : String × String → List (String × String) → Bool
is_marked key [] = false
is_marked key (other ∷ keys) = same_key key other || is_marked key keys

-- `INSERT OR IGNORE`: the key is new exactly where one row is affected.
unfoldable pub try_mark_notified : Fault → String → String → Db → Result Bool × Db
unfolding is_marked
try_mark_notified (some m) request_id kind db = (err m, db)
try_mark_notified none request_id kind db =
    if is_marked (request_id, kind) db.notified
    then (ok false, db)
    else (ok true, record db { notified = (request_id, kind) ∷ db.notified })
