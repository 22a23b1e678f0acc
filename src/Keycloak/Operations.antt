-- ===== src/Keycloak/Operations.antt =====
-- What the client's three operations answer, Keycloak has answered, and its caches stay sound.
use kc_jit_public.Base.{
  String, ◌≡◌, refl, inl, inr, Bool, true, false, not, ◌&&◌, ◌==◌, eq_iff, List, [], ◌∷◌, some, ok,
  arith, All, Bool-cases, Option-cases,
}
use mathlib.Core.Path.{subst}
use kc_jit_public.Text.{is_empty}
use kc_jit_public.Config.{Config}
use kc_jit_public.Keycloak.{
  Outside, Client, lookup_id, decode_list, user_groups_path, groups_path, member_path, user_groups,
  keep_group, fetch_group, group_id, has_name, in_group, change_member, add_to_group,
  remove_from_group,
}
use kc_jit_public.Keycloak.Gives.{Gives, Gives-bind, Gives-pure}
use kc_jit_public.Keycloak.Sound.{
  HasGroup, AnsweredAdmin, WasGroup, WasUser, IsSound, do_call-Gives, user_id-Gives,
}

module _ (out : Outside) (cfg : Config) where
  -- The groups of a user as Keycloak has answered them.
  pub record WasNames (uid : String) (names : List String) : Type 0 where
    pub body : String
    pub answered : AnsweredAdmin out cfg "GET" (user_groups_path out cfg uid) body
    pub read : decode_list out.group_names_of body ≡ ok names

  user_groups-Gives :
      (uid : String) → Gives (IsSound out cfg) (WasNames uid) (user_groups out cfg uid)
  unfolding user_groups
  user_groups-Gives uid =
      Gives-bind (IsSound out cfg) _ _ _ _
        (do_call-Gives out cfg "GET" (user_groups_path out cfg uid))
        λ body answered.
          Gives-pure (IsSound out cfg) _ (decode_list out.group_names_of body)
            λ names e. record { body = body; answered = answered; read = e }

  named_of : (a b : Bool) → (a && not b) ≡ true → (a ≡ true) × (b ≡ false)
  named_of a b h = ground arith

  -- A group that is kept is one of the answer.
  keep_group-Gives :
      (name : String) (groups : List (String × String))
      → ((id : String) → is_empty id ≡ false → HasGroup id name groups → WasGroup out cfg name id)
      → Gives (IsSound out cfg) (WasGroup out cfg name) (keep_group out cfg name groups)
  unfolding keep_group
  keep_group-Gives name [] k = record { keeps = λ c p. p; gives = λ c a p e. absurd (cc) }
  keep_group-Gives name ((id, other) ∷ groups) k =
      elim (Bool-cases (other == name && not (is_empty id))) [
        | inl this ↦
            let (same, named) = named_of (other == name) (is_empty id) this in
            let was = k id named (inl (refl, (eq_iff other name).0 same)) in
            record {
              keeps = λ c p. rw this (record { token = p.token; groups = (was, p.groups) });
              gives = λ c a p e.
                  let e' = rw this at e in
                  let one : id ≡ a = cc in subst (WasGroup out cfg name) one was;
            }
        | inr next ↦
            let rest = keep_group-Gives name groups (λ i named has. k i named (inr has)) in
            record {
              keeps = λ c p. rw next (rest.keeps c p);
              gives = λ c a p e. rest.gives c a p (rw next at e);
            }
      ]

  fetch_group-Gives :
      (name : String) → Gives (IsSound out cfg) (WasGroup out cfg name) (fetch_group out cfg name)
  unfolding fetch_group
  fetch_group-Gives name =
      Gives-bind (IsSound out cfg) _ _ _ _ (do_call-Gives out cfg "GET" (groups_path out cfg name))
        λ body answered.
          Gives-bind (IsSound out cfg) (λ groups. decode_list out.groups_of body ≡ ok groups) _ _ _
            (Gives-pure (IsSound out cfg) _ _ (λ groups e. e))
            λ groups read. keep_group-Gives name groups λ id named has. record {
              named = named;
              body = body;
              answered = answered;
              groups = groups;
              read = read;
              found = has;
            }

  lookup_id-WasGroup :
      (name id : String) (ids : List (String × String))
      → All (λ e. WasGroup out cfg e.0 e.1) ids
      → lookup_id name ids ≡ some id
      → WasGroup out cfg name id
  lookup_id-WasGroup name id [] h e = absurd cc
  lookup_id-WasGroup name id ((key, i) ∷ ids) h e = elim (Bool-cases (key == name)) [
    | inl this ↦
        let e' = rw this at e in
        let one : i ≡ id = cc in
        let two : key ≡ name = (eq_iff key name).0 this in
        subst (λ n. WasGroup out cfg n id) two (subst (WasGroup out cfg key) one h.0)
    | inr other ↦ lookup_id-WasGroup name id ids h.1 (rw other at e)
  ]

  group_id-Gives :
      (name : String) → Gives (IsSound out cfg) (WasGroup out cfg name) (group_id out cfg name)
  unfolding group_id
  group_id-Gives name = record { keeps = kept; gives = given }
    where
      kept : (c : Client) → IsSound out cfg c → IsSound out cfg (group_id out cfg name c).1
      kept c p = elim (Option-cases (lookup_id name c.group_ids)) [
        | inl missing ↦ rw missing ((fetch_group-Gives name).keeps c p)
        | inr (id, found) ↦ rw found p
      ]

      given :
          (c : Client) (a : String)
          → IsSound out cfg c
          → (group_id out cfg name c).0 ≡ ok a
          → WasGroup out cfg name a
      given c a p e = elim (Option-cases (lookup_id name c.group_ids)) [
        | inl missing ↦ (fetch_group-Gives name).gives c a p (rw missing at e)
        | inr (id, found) ↦
            let e' = rw found at e in
            let one : id ≡ a = cc in
            subst (WasGroup out cfg name) one
              (lookup_id-WasGroup name id c.group_ids p.groups found)
      ]

  -- The answer of `InGroup` is whether the name is among the user's groups.
  pub record IsMembership (username group : String) (b : Bool) : Type 0 where
    pub uid : String
    pub user : WasUser out cfg username uid
    pub names : List String
    pub listed : WasNames uid names
    pub answer : b ≡ has_name names group

  -- The change was answered, on the user and the group with those names.
  pub record IsChange (method username group : String) : Type 0 where
    pub uid : String
    pub user : WasUser out cfg username uid
    pub gid : String
    pub of_name : WasGroup out cfg group gid
    pub body : String
    pub answered : AnsweredAdmin out cfg method (member_path out cfg uid gid) body

  in_group-Gives :
      (username group : String)
      → Gives (IsSound out cfg) (IsMembership username group) (in_group out cfg username group)
  unfolding in_group
  in_group-Gives username group =
      Gives-bind (IsSound out cfg) _ _ _ _ (user_id-Gives out cfg username) λ uid user.
        Gives-bind (IsSound out cfg) _ _ _ _ (user_groups-Gives uid) λ names listed.
          Gives-pure (IsSound out cfg) _ _
            λ b e. record { uid = uid; user = user; names = names; listed = listed; answer = cc }

  change_member-Gives :
      (method username group : String)
      → Gives
          (IsSound out cfg)
          (λ done. IsChange method username group)
          (change_member out cfg method username group)
  unfolding change_member
  change_member-Gives method username group =
      Gives-bind (IsSound out cfg) _ _ _ _ (user_id-Gives out cfg username) λ uid user.
        Gives-bind (IsSound out cfg) _ _ _ _ (group_id-Gives group) λ gid of_name.
          Gives-bind (IsSound out cfg) _ _ _ _
            (do_call-Gives out cfg method (member_path out cfg uid gid))
            λ body answered. Gives-pure (IsSound out cfg) _ _ λ done e. record {
              uid = uid;
              user = user;
              gid = gid;
              of_name = of_name;
              body = body;
              answered = answered;
            }

  -- The three operations keep the caches sound: the token with its expiry and each group's id are what
  -- Keycloak has answered. When they answer without an error, `InGroup` says whether the name is among
  -- the groups that Keycloak listed for the user of that name, and the other two have had a PUT or a
  -- DELETE answered for the user and the group of those names. Each call carried a token that is not
  -- empty and that the token endpoint had answered.
  pub client-Gives :
      (username group : String)
      → Gives (IsSound out cfg) (IsMembership username group) (in_group out cfg username group)
        × Gives
            (IsSound out cfg)
            (λ done. IsChange "PUT" username group)
            (add_to_group out cfg username group)
        × Gives
            (IsSound out cfg)
            (λ done. IsChange "DELETE" username group)
            (remove_from_group out cfg username group)
  unfolding add_to_group remove_from_group
  client-Gives username group = (
    in_group-Gives username group,
    change_member-Gives "PUT" username group,
    change_member-Gives "DELETE" username group,
  )
