-- ===== src/Ledger/Listed.antt =====
-- What `ListAudit` answers.
use kc_jit_public.Base.{
  ℕ, ◌≤◌, ◌<◌, String, ◌==◌, eqb, not, Option, ◌||◌, &&_true, ◌≡◌, ◌≢◌, refl, ◌↔◌, ◌⊎◌, inl, inr,
  Bool, true, false, List, [], ◌∷◌, none, some, ok, err, arith, eq_iff, All, Each, Option-cases,
  length, take, length-take-le, filter, if◌then◌else◌,
}
use mathlib.Core.List.{reverse, Memᴰ}
use mathlib.Core.List.Memᴰ
use kc_jit_public.Base.Int.{ℤ, pos, negsuc}
use kc_jit_public.Time.{Instant}
use kc_jit_public.Time.Parse.{parse}
use kc_jit_public.Store.Requests.{bad_time}
use kc_jit_public.Text.{is_empty}
use kc_jit_public.Store.{AuditEvent, AuditRow, Db}
use kc_jit_public.Store.Audit.{
  AuditFilter, same_flag, effective_limit, selects, scan_audit, scan_audits, selected, list_audit,
}
use kc_jit_public.Ledger.Rows.{IsLedger}
use kc_jit_public.Ledger.Down.{
  GoesDown, reverse_aux-GoesDown, filter-GoesDown, take-GoesDown, Mem-take, Mem-filter,
  Mem-reverse_aux, Mem-first,
}

-- What a filter asks of a row: nothing where a text is empty or the mark is not given.
pub record Asks (f : AuditFilter) (row : AuditRow) : Type 0 where
  pub of_request : f.request_id ≢ "" → row.request_id ≡ f.request_id
  pub of_actor : f.actor ≢ "" → row.actor ≡ f.actor
  pub of_break_glass : (b : Bool) → f.break_glass ≡ some b → row.break_glass ≡ (if b then 1 else 0)

-- A limit from 1 to 500 counts as it is, every other as 100.
abbrev pub IsLimit : ℤ → ℕ → Type 0
IsLimit (negsuc k) n = n ≡ 100
IsLimit (pos k) n = ((1 ≤ k) × (k ≤ 500) × (n ≡ k)) ⊎ (((k ≡ 0) ⊎ (500 < k)) × (n ≡ 100))

-- The event has what the columns of the row say.
pub record Reads (row : AuditRow) (e : AuditEvent) : Type 0 where
  pub id : e.id ≡ row.id
  pub at : (t : Instant) × (parse row.at ≡ some t) × (e.at ≡ some t)
  pub action : e.action ≡ row.action
  pub actor : e.actor ≡ row.actor
  pub subject : e.subject ≡ row.subject
  pub request_id : e.request_id ≡ row.request_id
  pub justification : e.justification ≡ row.justification
  pub detail : e.detail ≡ row.detail
  pub break_glass : (e.break_glass ≡ true) ↔ (row.break_glass ≢ 0)

is_empty-cases : (s : String) → ((is_empty s ≡ true) × (s ≡ "")) ⊎ ((is_empty s ≡ false) × (s ≢ ""))
is_empty-cases String.[] = inl (refl, refl)
is_empty-cases (String.◌∷◌ c s) = inr (refl, λ e. cc)

-- One condition on a text, as the query puts it.
text-Asks :
    (asked col : String) → ((is_empty asked || col == asked) ≡ true) ↔ (asked ≢ "" → col ≡ asked)
text-Asks asked col = elim (is_empty-cases asked) [
  | inl (b, e) ↦ ((λ h given. absurd (given e)), λ h. rw b refl)
  | inr (b, given) ↦
      ((λ h g. (eq_iff col asked).0 (rw b at h)), λ h. rw (b, (eq_iff col asked).1 (h given)) refl)
]

flag-Asks :
    (asked : Option Bool) (n : ℕ)
    → (same_flag asked n ≡ true) ↔ ((b : Bool) → asked ≡ some b → n ≡ (if b then 1 else 0))
flag-Asks none n = ((λ h b e. cc), λ h. refl)
flag-Asks (some true) n = ((λ h b e. ground arith), λ h. let k = h true refl in ground arith)
flag-Asks (some false) n = ((λ h b e. ground arith), λ h. let k = h false refl in ground arith)

selects-Asks : (f : AuditFilter) (row : AuditRow) → (selects f row ≡ true) ↔ Asks f row
unfolding selects
selects-Asks f row = (
  λ s.
      let (both, mark) = &&_true _ _ s in
      let (request, actor) = &&_true _ _ both in
      record {
        of_request = (text-Asks f.request_id row.request_id).0 request;
        of_actor = (text-Asks f.actor row.actor).0 actor;
        of_break_glass = (flag-Asks f.break_glass row.break_glass).0 mark;
      },
  λ a.
      rw
        (
          (text-Asks f.request_id row.request_id).1 a.of_request,
          (text-Asks f.actor row.actor).1 a.of_actor,
          (flag-Asks f.break_glass row.break_glass).1 a.of_break_glass,
        )
        refl,
)

effective_limit-IsLimit : (limit : ℤ) → IsLimit limit (effective_limit limit)
unfolding effective_limit
effective_limit-IsLimit (negsuc k) = refl
effective_limit-IsLimit (pos k) = ground arith

IsLimit-le : (limit : ℤ) (n : ℕ) → IsLimit limit n → n ≤ 500
IsLimit-le (negsuc k) n h = omega (arith, h)
IsLimit-le (pos k) n h = ground arith

-- The event of a row, with the time that its text says.
abbrev event_at : AuditRow → Instant → AuditEvent
event_at row t = record {
  id = row.id;
  at = some t;
  action = row.action;
  actor = row.actor;
  subject = row.subject;
  request_id = row.request_id;
  justification = row.justification;
  detail = row.detail;
  break_glass = not (eqb row.break_glass 0);
}

scan_audit-Reads :
    (row : AuditRow)
    → ((e : AuditEvent) × (scan_audit row ≡ ok e) × Reads row e)
      ⊎ ((m : String) × (scan_audit row ≡ err m) × (parse row.at ≡ none))
unfolding scan_audit
scan_audit-Reads row = elim (Option-cases (parse row.at)) [
  | inl bad ↦ inr (bad_time, rw bad refl, bad)
  | inr (t, made) ↦ inl (
    event_at row t,
    rw made refl,
    record {
      id = refl;
      at = (t, made, refl);
      action = refl;
      actor = refl;
      subject = refl;
      request_id = refl;
      justification = refl;
      detail = refl;
      break_glass = ((λ h e. ground arith), λ h. ground arith);
    },
  )
]

-- A scan reads every row, in order, or ends with an error and there is a row that cannot be read.
scan_audits-Reads :
    (rows : List AuditRow)
    → ((es : List AuditEvent) × (scan_audits rows ≡ ok es) × Each Reads rows es)
      ⊎ ((m : String) × (scan_audits rows ≡ err m)
          × (row : AuditRow) × Memᴰ row rows
          × (parse row.at ≡ none))
unfolding scan_audits
scan_audits-Reads [] = inl ([], refl, tt)
scan_audits-Reads (row ∷ rows) = elim (scan_audit-Reads row) [
  | inr (m, fails, bad) ↦ inr (m, rw fails refl, row, Memᴰ.head refl, bad)
  | inl (e, reads, r) ↦ elim (scan_audits-Reads rows) [
    | inl (es, later, rs) ↦ inl (e ∷ es, rw (reads, later) refl, (r, rs))
    | inr (m, fails, bad, there, u) ↦ inr (m, rw (reads, fails) refl, bad, Memᴰ.tail there, u)
  ]
]

-- A page of the ledger: the rows that the filter asks for, those with the larger ids first, as they
-- read; where the limit leaves a row out, the page is full and has rows with larger ids only.
pub record IsPage (f : AuditFilter) (table : List AuditRow) (es : List AuditEvent) : Type 0 where
  pub limit : ℕ
  pub limited : IsLimit f.limit limit
  pub page : List AuditRow
  pub short : length page ≤ limit
  pub newest_first : GoesDown page
  pub matching : (row : AuditRow) → Memᴰ row page → Memᴰ row table × Asks f row
  pub complete :
      (row : AuditRow)
      → Memᴰ row table
      → Asks f row
      → Memᴰ row page ⊎ ((length page ≡ limit) × All (λ r. row.id < r.id) page)
  pub read : Each Reads page es

module _ (f : AuditFilter) (db : Db) (l : IsLedger db) where
  abbrev chosen : List AuditRow
  chosen = filter (selects f) (reverse db.audit_events)

  abbrev limit : ℕ
  limit = effective_limit f.limit

  chosen-GoesDown : GoesDown chosen
  chosen-GoesDown =
      filter-GoesDown (selects f) (reverse db.audit_events)
        (reverse_aux-GoesDown 0 db.audit_events [] l.ascending tt tt)

  Mem-chosen : (row : AuditRow) → Memᴰ row chosen ↔ (Memᴰ row db.audit_events × Asks f row)
  Mem-chosen row = (
    λ m.
        let (there, asked) = (Mem-filter (selects f) (reverse db.audit_events)).0 m in
        (
          elim ((Mem-reverse_aux db.audit_events []).0 there) [
            | inl before ↦ before
            | inr none_left ↦ absurd (Memᴰ.not-nil none_left)
          ],
          (selects-Asks f row).0 asked,
        ),
    λ (there, asks).
        (Mem-filter (selects f) (reverse db.audit_events)).1
          ((Mem-reverse_aux db.audit_events []).1 (inl there), (selects-Asks f row).1 asks),
  )

  chosen-IsPage :
      (es : List AuditEvent) → Each Reads (take limit chosen) es → IsPage f db.audit_events es
  chosen-IsPage es reads = record {
    limit = limit;
    limited = effective_limit-IsLimit f.limit;
    page = take limit chosen;
    short = length-take-le limit chosen;
    newest_first = take-GoesDown limit chosen chosen-GoesDown;
    matching = λ row m. (Mem-chosen row).0 (Mem-take limit chosen m);
    complete =
        λ row there asks. Mem-first limit chosen chosen-GoesDown ((Mem-chosen row).1 (there, asks));
    read = reads;
  }

  -- From a ledger whose ids go up, `ListAudit`, when the engine runs its query, answers what the rows
  -- say that match the filter's request, actor and break-glass mark, all of them up to its limit (which
  -- is 100 unless it is from 1 to 500), those with the larger ids first and the others left out; or it
  -- answers an error, and there is a row that matches and whose time is no text of a time.
  pub list_audit-IsPage :
      ((es : List AuditEvent) × (list_audit none f db ≡ ok es) × IsPage f db.audit_events es)
      ⊎ ((m : String) × (list_audit none f db ≡ err m)
          × (row : AuditRow) × Memᴰ row db.audit_events
          × Asks f row
          × (parse row.at ≡ none))
  unfolding list_audit selected
  list_audit-IsPage = elim (scan_audits-Reads (take limit chosen)) [
    | inl (es, answers, reads) ↦ inl (es, answers, chosen-IsPage es reads)
    | inr (m, fails, row, there, bad) ↦
        let (inside, asks) = (Mem-chosen row).0 (Mem-take limit chosen there) in
        inr (m, fails, row, inside, asks, bad)
  ]
