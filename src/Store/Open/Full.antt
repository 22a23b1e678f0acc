-- ===== src/Store/Open/Full.antt =====
-- What `Open` makes of a file when the engine runs every statement.
use kc_jit_public.Base.{
  ℕ, String, ◌==◌, ◌≡◌, refl, ap, inl, inr, true, List, [], ◌∷◌, Option, none, some, ok, Bool-cases,
  eq_refl,
}
use kc_jit_public.Store.{AuditRow}
use kc_jit_public.Store.Open.{
  Requests, without_notes, with_notes, File, Engine, or_new, add_name, statement, contains,
  pass_duplicate, migrate_audit, migrate_notify, migrate_approval_notes, migrate, rows_with_notes,
  ledger_of, keys_of, db_of, open_store,
}

add_name_again : (x : String) (l : List String) → add_name x (add_name x l) ≡ add_name x l
add_name_again x [] = rw (eq_refl x) refl
add_name_again x (y ∷ l) = elim (Bool-cases (y == x)) [
  | inl e ↦ rw (e, e) refl
  | inr e ↦ rw (e, e) (ap (◌∷◌ y) (add_name_again x l))
]

tail_same : (y : String) (k l : List String) → y ∷ k ≡ y ∷ l → k ≡ l
tail_same y k l e = cc

-- A name that is there stays.
add_name_there :
    (x y : String) (l : List String) → add_name x l ≡ l → add_name x (add_name y l) ≡ add_name y l
add_name_there x y [] h = absurd cc
add_name_there x y (z ∷ l) h = elim (Bool-cases (z == y)) [
  | inl e ↦ rw e h
  | inr e ↦ elim (Bool-cases (z == x)) [
    | inl f ↦ rw (e, f) refl
    | inr f ↦
        rw (e, f) (ap (◌∷◌ z) (add_name_there x y l (tail_same z (add_name x l) l (rw f at h))))
  ]
]

abbrev all_indices : List String → List String
all_indices l =
    add_name "idx_audit_request" (add_name "idx_audit_at" (add_name "idx_requests_status" l))

all_indices_again : (l : List String) → all_indices (all_indices l) ≡ all_indices l
all_indices_again l =
    let a = add_name "idx_requests_status" l in
    let b = add_name "idx_audit_at" a in
    let here = add_name_again "idx_requests_status" l in
    let here' = add_name_there "idx_requests_status" "idx_audit_at" a here in
    let here'' = add_name_there "idx_requests_status" "idx_audit_request" b here' in
    let at =
      add_name_there "idx_audit_at" "idx_audit_request" b (add_name_again "idx_audit_at" a) in
    rw (here'', at) (add_name_again "idx_audit_request" b)

-- The file with all the tables, the column of the notes and the indices.
abbrev pub finished : File → File
finished f = record {
  requests = some (with_notes (rows_with_notes f.requests));
  audit_events = some (ledger_of f.audit_events);
  notifications = some (keys_of f.notifications);
  indices = all_indices f.indices;
}

new_ledger : (o : Option (List AuditRow × ℕ)) → or_new ([], 0) o ≡ some (ledger_of o)
new_ledger none = refl
new_ledger (some l) = refl

new_keys : (o : Option (List (String × String))) → or_new [] o ≡ some (keys_of o)
new_keys none = refl
new_keys (some ks) = refl

module _ (engine : Engine) where
  -- The engine runs every statement, and says of a column that is there already that it is a duplicate.
  pub record IsWilling : Type 0 where
    pub runs : (n : ℕ) → engine.fault n ≡ none
    pub says : contains (λ c. c) engine.duplicate_column "duplicate column" ≡ true

  abbrev file_of :
      Option Requests
      → Option (List AuditRow × ℕ)
      → Option (List (String × String))
      → List String
      → File
  file_of r a k l = record { requests = r; audit_events = a; notifications = k; indices = l }

  open_store-finished :
      (r : Option Requests) (a : Option (List AuditRow × ℕ)) (k : Option (List (String × String)))
      (l : List String)
      → IsWilling
      → open_store engine (file_of r a k l)
        ≡ (ok (db_of (file_of r a k l)), finished (file_of r a k l))
  unfolding open_store migrate migrate_audit migrate_notify migrate_approval_notes statement
      pass_duplicate
  open_store-finished none a k l w =
      rw
        (
          w.runs 0,
          w.runs 1,
          w.runs 2,
          w.runs 3,
          w.runs 4,
          w.runs 5,
          w.runs 6,
          w.says,
          new_ledger a,
          new_keys k,
        )
        refl
  open_store-finished (some (without_notes rows)) a k l w =
      rw
        (
          w.runs 0,
          w.runs 1,
          w.runs 2,
          w.runs 3,
          w.runs 4,
          w.runs 5,
          w.runs 6,
          new_ledger a,
          new_keys k,
        )
        refl
  open_store-finished (some (with_notes rows)) a k l w =
      rw
        (
          w.runs 0,
          w.runs 1,
          w.runs 2,
          w.runs 3,
          w.runs 4,
          w.runs 5,
          w.runs 6,
          w.says,
          new_ledger a,
          new_keys k,
        )
        refl

  -- When the engine runs every statement, and calls a column that is there already a duplicate, `Open`
  -- answers the store of any file, which then has the three tables, the column of the notes and the
  -- indices, and opening it again answers the same store and changes nothing.
  pub open_store-again :
      (f : File)
      → IsWilling
      → (open_store engine f ≡ (ok (db_of f), finished f))
        × (open_store engine (finished f) ≡ (ok (db_of f), finished f))
  open_store-again f w =
      let once = open_store-finished f.requests f.audit_events f.notifications f.indices w in
      let g = finished f in
      let twice = open_store-finished g.requests g.audit_events g.notifications g.indices w in
      (once, rw (all_indices_again f.indices) at twice)
