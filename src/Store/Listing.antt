-- ===== src/Store/Listing.antt =====
-- `List`: all requests, the latest creation first.
use kc_jit_public.Base.{
  String, ◌≡◌, refl, ◌⊎◌, inl, inr, true, false, List, [], ◌∷◌, Option, none, some, ok, err, arith,
  All, Each, Bool-cases, Option-cases,
}
use mathlib.Core.List.{Perm, Mem, Memᴰ}
use mathlib.Core.List.Perm
use kc_jit_public.Time.{Instant}
use kc_jit_public.Time.Parse.{parse}
use kc_jit_public.Time.Format.{Bytes, text_le}
use kc_jit_public.Store.{Row, Request, Db}
use kc_jit_public.Store.Requests.{
  null_string, parse_null_time, bad_time, scan_request, scan_all, insert_desc, order_desc, list,
}

text_le_total : (s t : Bytes) → text_le s t ≡ false → text_le t s ≡ true
unfolding text_le
text_le_total [] t h = cc
text_le_total (c ∷ s) [] h = refl
text_le_total (c ∷ s) (d ∷ t) h = ground (arith, text_le_total s t)

text_le_trans : (s t u : Bytes) → text_le s t ≡ true → text_le t u ≡ true → text_le s u ≡ true
unfolding text_le
text_le_trans [] t u h k = refl
text_le_trans (c ∷ s) [] u h k = cc
text_le_trans (c ∷ s) (d ∷ t) [] h k = cc
text_le_trans (c ∷ s) (d ∷ t) (e ∷ u) h k = ground (arith, text_le_trans s t u)

-- The creation of the first is not before that of any other, as the texts go, and so on down.
abbrev NoLater : Row → List Row → Type 0
NoLater row = All (λ r. text_le r.created_at row.created_at ≡ true)

abbrev pub LatestFirst : List Row → Type 0
LatestFirst [] = Unit
LatestFirst (row ∷ rows) =
    All (λ r. text_le r.created_at row.created_at ≡ true) rows × LatestFirst rows

NoLater-trans :
    (a b : Row) (rows : List Row)
    → text_le a.created_at b.created_at ≡ true
    → NoLater a rows
    → NoLater b rows
NoLater-trans a b [] h k = tt
NoLater-trans a b (r ∷ rows) h k =
    (text_le_trans r.created_at a.created_at b.created_at k.0 h, NoLater-trans a b rows h k.1)

insert_desc-NoLater :
    (top row : Row) (rows : List Row)
    → text_le row.created_at top.created_at ≡ true
    → NoLater top rows
    → NoLater top (insert_desc row rows)
unfolding insert_desc
insert_desc-NoLater top row [] h k = (h, tt)
insert_desc-NoLater top row (r ∷ rows) h k =
    elim (Bool-cases (text_le r.created_at row.created_at)) [
      | inl before ↦ rw before (h, k)
      | inr later ↦ rw later (k.0, insert_desc-NoLater top row rows h k.1)
    ]

insert_desc-LatestFirst :
    (row : Row) (rows : List Row) → LatestFirst rows → LatestFirst (insert_desc row rows)
unfolding insert_desc
insert_desc-LatestFirst row [] h = (tt, tt)
insert_desc-LatestFirst row (r ∷ rows) h = elim (Bool-cases (text_le r.created_at row.created_at)) [
  | inl before ↦ rw before ((before, NoLater-trans r row rows before h.0), h)
  | inr later ↦ rw later (
    insert_desc-NoLater r row rows (text_le_total r.created_at row.created_at later) h.0,
    insert_desc-LatestFirst row rows h.1,
  )
]

order_desc-LatestFirst : (rows : List Row) → LatestFirst (order_desc rows)
unfolding order_desc
order_desc-LatestFirst [] = tt
order_desc-LatestFirst (row ∷ rows) =
    insert_desc-LatestFirst row (order_desc rows) (order_desc-LatestFirst rows)

insert_desc-Perm : (row : Row) (rows : List Row) → Perm (insert_desc row rows) (row ∷ rows)
unfolding insert_desc
insert_desc-Perm row [] = Perm.rfl
insert_desc-Perm row (r ∷ rows) = elim (Bool-cases (text_le r.created_at row.created_at)) [
  | inl before ↦ rw before Perm.rfl
  | inr later ↦
      rw later (Perm.trans (Perm.cons r (insert_desc-Perm row rows)) (Perm.swap row r rows))
]

order_desc-Perm : (rows : List Row) → Perm (order_desc rows) rows
unfolding order_desc
order_desc-Perm [] = Perm.rfl
order_desc-Perm (row ∷ rows) =
    Perm.trans (insert_desc-Perm row (order_desc rows)) (Perm.cons row (order_desc-Perm rows))

-- What a column that may be NULL says as a text, and as a time.
abbrev pub ReadsText : Option String → String → Type 0
ReadsText none t = t ≡ ""
ReadsText (some s) t = t ≡ s

abbrev pub ReadsTime : Option Bytes → Option Instant → Type 0
ReadsTime none t = t ≡ none
ReadsTime (some s) t = t ≡ parse s

-- The request has what the columns of the row say; the first two times have to be texts of times.
pub record Reads (row : Row) (req : Request) : Type 0 where
  pub id : req.id ≡ row.id
  pub username : req.username ≡ row.username
  pub justification : req.justification ≡ row.justification
  pub status : req.status ≡ row.status
  pub created_at : parse row.created_at ≡ some req.created_at
  pub request_expires_at : parse row.request_expires_at ≡ some req.request_expires_at
  pub approved_at : ReadsTime row.approved_at req.approved_at
  pub approved_by : ReadsText row.approved_by req.approved_by
  pub approval_notes : req.approval_notes ≡ row.approval_notes
  pub active_expires_at : ReadsTime row.active_expires_at req.active_expires_at
  pub released_at : ReadsTime row.released_at req.released_at

-- One of the two times that may not be NULL is no text of a time.
abbrev pub IsUnreadable : Row → Type 0
IsUnreadable row = (parse row.created_at ≡ none) ⊎ (parse row.request_expires_at ≡ none)

null_string-Reads : (o : Option String) → ReadsText o (null_string o)
null_string-Reads none = refl
null_string-Reads (some s) = refl

parse_null_time-Reads : (o : Option Bytes) → ReadsTime o (parse_null_time o)
unfolding parse_null_time parse
parse_null_time-Reads none = refl
parse_null_time-Reads (some []) = refl
parse_null_time-Reads (some (c ∷ s)) = refl

scan_request-Reads :
    (row : Row)
    → ((req : Request) × (scan_request row ≡ ok req) × Reads row req)
      ⊎ ((m : String) × (scan_request row ≡ err m) × IsUnreadable row)
unfolding scan_request
scan_request-Reads row = elim (Option-cases (parse row.created_at)) [
  | inl bad ↦ inr (bad_time, rw bad refl, inl bad)
  | inr (created, made) ↦ elim (Option-cases (parse row.request_expires_at)) [
    | inl bad ↦ inr (bad_time, rw (made, bad) refl, inr bad)
    | inr (ends, ended) ↦ inl (
      _,
      rw (made, ended) refl,
      record {
        id = refl;
        username = refl;
        justification = refl;
        status = refl;
        created_at = made;
        request_expires_at = ended;
        approved_at = parse_null_time-Reads row.approved_at;
        approved_by = null_string-Reads row.approved_by;
        approval_notes = refl;
        active_expires_at = parse_null_time-Reads row.active_expires_at;
        released_at = parse_null_time-Reads row.released_at;
      },
    )
  ]
]

-- A scan reads every row, in order, or ends with an error and there is a row that cannot be read.
scan_all-Reads :
    (rows : List Row)
    → ((reqs : List Request) × (scan_all rows ≡ ok reqs) × Each Reads rows reqs)
      ⊎ ((m : String) × (scan_all rows ≡ err m) × (row : Row) × Memᴰ row rows × IsUnreadable row)
unfolding scan_all
scan_all-Reads [] = inl ([], refl, tt)
scan_all-Reads (row ∷ rows) = elim (scan_request-Reads row) [
  | inr (m, fails, bad) ↦ inr (m, rw fails refl, row, Memᴰ.head refl, bad)
  | inl (req, reads, r) ↦ elim (scan_all-Reads rows) [
    | inl (reqs, later, rs) ↦ inl (req ∷ reqs, rw (reads, later) refl, (r, rs))
    | inr (m, fails, bad, there, u) ↦ inr (m, rw (reads, fails) refl, bad, Memᴰ.tail there, u)
  ]
]

-- The requests are those of the table's rows, read column by column, in an order in which the latest
-- creation comes first.
pub record IsListing (table : List Row) (reqs : List Request) : Type 0 where
  pub rows : List Row
  pub same_rows : Perm rows table
  pub latest_first : LatestFirst rows
  pub read : Each Reads rows reqs

-- `List`, when the engine runs its query, answers every row of the table once, each column as it
-- reads, in the descending order of the texts of creation; or it answers an error, and there is a row
-- with a text of creation or of expiry that is no time.
pub list-IsListing :
    (db : Db)
    → ((reqs : List Request) × (list none db ≡ ok reqs) × IsListing db.requests reqs)
      ⊎ ((m : String) × (list none db ≡ err m)
          × (row : Row) × Mem row db.requests
          × IsUnreadable row)
unfolding list
list-IsListing db = elim (scan_all-Reads (order_desc db.requests)) [
  | inl (reqs, answers, reads) ↦ inl (
    reqs,
    answers,
    record {
      rows = order_desc db.requests;
      same_rows = order_desc-Perm db.requests;
      latest_first = order_desc-LatestFirst db.requests;
      read = reads;
    },
  )
  | inr (m, fails, row, there, bad) ↦
      inr (m, fails, row, (Perm.mem_iff (order_desc-Perm db.requests)).0 ∣ there ∣₁, bad)
]
