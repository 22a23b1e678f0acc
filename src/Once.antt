-- ===== src/Once.antt =====
-- Noise control: the webhook is called at most once for a request and a kind of message.
pub mod Notify
pub mod Serve
use kc_jit_public.Base.{String, ◌≡◌, ◌≢◌, true, List, [], ◌∷◌, All}
use kc_jit_public.Store.Notifications.{is_marked}
use kc_jit_public.World.{Post, World}

abbrev pub key_of : Post → String × String
key_of p = (p.request_id, p.kind)

-- No two messages have one key.
abbrev pub Distinct : List Post → Type 0
Distinct [] = Unit
Distinct (p ∷ ps) = All (λ q. key_of p ≢ key_of q) ps × Distinct ps

-- And the key of each message is in the table.
pub record OnceOf (posts : List Post) (keys : List (String × String)) : Type 0 where
  pub distinct : Distinct posts
  pub marked : All (λ p. is_marked (key_of p) keys ≡ true) posts

abbrev pub IsOnce : {K : Type 0} → World K → Type 0
IsOnce w = OnceOf w.posts w.db.notified
