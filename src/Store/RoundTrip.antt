-- ===== src/Store/RoundTrip.antt =====
-- What `Create` and `Update` write, `Get` reads back.
use kc_jit_public.Base.{
  ◌<◌, String, ◌≡◌, refl, ap, ◌∙◌, List, [], ◌∷◌, ◌++◌, Option, none, some, ok, eq_refl,
}
use kc_jit_public.Time.{Instant}
use kc_jit_public.Time.Format.{format}
use kc_jit_public.Time.Format.Order.{end_of_years}
use kc_jit_public.Time.Parse.{parse}
use kc_jit_public.Time.Parse.RoundTrip.{parse-format}
use kc_jit_public.Store.{Row, Request, Db}
use kc_jit_public.Store.Requests.{
  null_time, null_str, null_string, parse_null_time, to_row, scan_request, find, create, get,
  set_columns, update,
}
use kc_jit_public.Store.Keys.{map_row, find-append, find-update_rows_self}
use kc_jit_public.Store.Written.{create_ok, update-rows_run}

-- All times of a request are before the year 10000.
abbrev pub InYears : Option Instant → Type 0
InYears none = Unit
InYears (some t) = t < end_of_years

pub record IsDated (r : Request) : Type 0 where
  pub created : r.created_at < end_of_years
  pub expires : r.request_expires_at < end_of_years
  pub approval : InYears r.approved_at
  pub grant_end : InYears r.active_expires_at
  pub release : InYears r.released_at

null_string-null_str : (s : String) → null_string (null_str s) ≡ s
unfolding null_str
null_string-null_str String.[] = refl
null_string-null_str (String.◌∷◌ c s) = refl

parse_null_time-format : (t : Instant) → parse_null_time (some (format t)) ≡ parse (format t)
unfolding parse_null_time format
parse_null_time-format t = refl

parse_null_time-null_time : (o : Option Instant) → InYears o → parse_null_time (null_time o) ≡ o
unfolding null_time parse_null_time
parse_null_time-null_time none h = refl
parse_null_time-null_time (some t) h = parse_null_time-format t ∙ parse-format t h

scan_request-to_row : (r : Request) → IsDated r → scan_request (to_row r) ≡ ok r
unfolding scan_request to_row
scan_request-to_row r h =
    rw
      (
        parse-format r.created_at h.created,
        parse-format r.request_expires_at h.expires,
        parse_null_time-null_time r.approved_at h.approval,
        parse_null_time-null_time r.active_expires_at h.grant_end,
        parse_null_time-null_time r.released_at h.release,
        null_string-null_str r.approved_by,
      )
      refl

find-created :
    (r : Request) (rows : List Row)
    → find r.id rows ≡ none
    → find r.id (rows ++ to_row r ∷ []) ≡ some (to_row r)
unfolding to_row
find-created r rows fresh = rw (find-append, fresh, eq_refl) refl

get-found :
    (id : String) (row : Row) (db : Db)
    → find id db.requests ≡ some row
    → get none id db ≡ scan_request row
unfolding get
get-found id row db found = rw found refl

-- A request that `Create` has stored, with times before the year 10000, is read back as it was.
pub get-create :
    (r : Request) (db : Db)
    → IsDated r
    → (create none r db).0 ≡ ok tt
    → get none r.id (create none r db).1 ≡ ok r
get-create r db h done =
    let (fresh, stored) = create_ok none r db done in
    get-found r.id (to_row r) (create none r db).1
      (ap (find r.id) stored ∙ find-created r db.requests fresh)
    ∙ scan_request-to_row r h

-- The request has the columns that `Update` leaves alone as the row has them.
pub record KeepsColumns (r : Request) (row : Row) : Type 0 where
  pub id : row.id ≡ r.id
  pub username : row.username ≡ r.username
  pub justification : row.justification ≡ r.justification
  pub created_at : row.created_at ≡ format r.created_at
  pub request_expires_at : row.request_expires_at ≡ format r.request_expires_at

set_columns-to_row : (r : Request) (row : Row) → KeepsColumns r row → set_columns r row ≡ to_row r
unfolding set_columns to_row
set_columns-to_row r row k =
    rw (k.id, k.username, k.justification, k.created_at, k.request_expires_at) refl

-- A request that `Update` has written, with times before the year 10000, is read back as it was, when
-- it keeps the columns that `Update` leaves alone.
pub get-update :
    (r : Request) (row : Row) (db : Db)
    → IsDated r
    → find r.id db.requests ≡ some row
    → KeepsColumns r row
    → get none r.id (update none r db).1 ≡ ok r
get-update r row db h found k =
    get-found r.id (set_columns r row) (update none r db).1 (
      ap (find r.id) (update-rows_run r db)
      ∙ (find-update_rows_self r db.requests ∙ ap (map_row (set_columns r)) found))
    ∙ (ap scan_request (set_columns-to_row r row k) ∙ scan_request-to_row r h)
