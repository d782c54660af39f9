-- ===== src/User/Ids.antt =====
-- user.c: the record of the user database that a user answers to.
use mx3bot.Base.{
  ℕ, ◌≡◌, ◌≢◌, refl, sym, ◌∙◌, ap, subst, inl, inr, Bool, true, false, ◌&&◌, Option, some, [], ◌<◌,
  length, get_or-set_self, get_or-set_ne, if◌then◌else◌, Bool-cases, Option-cases,
}
use mx3bot.Base.Int.{ℤ, int_eq, int_eq_iff, pos}
use mx3bot.CString.{Str, str_case_eq}
use mx3bot.Table.{first_index-hit, first_index-lt, first_index-set_same}
use mx3bot.Table.Keyed.{keyed, known_lookup}
use mx3bot.User.{User, UserDb, Users, at, put, user_find}
use mx3bot.User.Session.{
  auth_found, set_id_found, get_id_found, user_auth, user_get_id, user_set_id,
}
use mx3bot.User.Keys.{UserKey, same_user, same_user_cong, same_user_refl, user_key, user_keys}

abbrev with_id : ℤ → Users → ℕ → Users
with_id id s i = put s i (record (at s.user i) { id = id })

module _ (server t : ℤ) (nick n : Str) (s : Users) (i : ℕ) (id : ℤ)
    (found : user_find server nick s.user ≡ some i) where
  abbrev asked : UserKey
  asked = (t, n)

  abbrev known : UserKey
  known = (server, nick)

  inside_table : i < length s.user
  unfolding user_find
  inside_table = first_index-lt (keyed user_keys user_key known) s.user i found

  find_with_id : user_find t n (with_id id s i).user ≡ user_find t n s.user
  unfolding user_find
  find_with_id =
      first_index-set_same (keyed user_keys user_key asked) s.user i
        (record (at s.user i) { id = id }) (at [] 0) refl

  same_place : same_user known asked ≡ true → user_find t n s.user ≡ some i
  unfolding user_find
  same_place same = rw same at (known_lookup user_keys user_key s.user known asked) ∙ found

  other_place : (j : ℕ) → same_user known asked ≡ false → user_find t n s.user ≡ some j → i ≢ j
  unfolding user_find
  other_place j differ e here =
      let hit = first_index-hit (keyed user_keys user_key asked) s.user j (at [] 0) e in
      let hit' = first_index-hit (keyed user_keys user_key known) s.user i (at [] 0) found in
      let entry = subst (λ k. same_user (user_key (at s.user k)) asked ≡ true) (sym here) hit in
      let same = sym (same_user_cong (user_key (at s.user i)) known asked hit') ∙ entry in
      cc (same, differ)

  get_id-with_id :
      user_get_id t n (with_id id s i) ≡ (if same_user known asked then id else user_get_id t n s)
  unfolding get_id_found
  get_id-with_id = elim (Bool-cases (same_user known asked)) [
    | inl same ↦ rw same (
        looked (with_id id s i) (find_with_id ∙ same_place same)
        ∙ ap (λ (u : User). u.id) (get_or-set_self s.user i _ (at [] 0) inside_table))
    | inr differ ↦ rw differ (elim (Option-cases (user_find t n s.user)) [
      | inl e ↦ looked (with_id id s i) (find_with_id ∙ e) ∙ sym (looked s e)
      | inr (j, e) ↦
          looked (with_id id s i) (find_with_id ∙ e)
          ∙ ap (λ (u : User). u.id) (get_or-set_ne s.user i j _ (at [] 0) (other_place j differ e))
          ∙ sym (looked s e)
    ])
  ]
    where
      looked :
          (s : Users) {o : Option ℕ}
          → user_find t n s.user ≡ o
          → user_get_id t n s ≡ get_id_found s o
      looked s e = unfold user_get_id in ap (get_id_found s) e

own_id :
    (server : ℤ) (nick : Str) (s : Users) (i : ℕ) (id : ℤ)
    → user_find server nick s.user ≡ some i
    → user_get_id server nick (with_id id s i) ≡ id
own_id server nick s i id e =
    rw (same_user_refl (server, nick)) at (get_id-with_id server server nick nick s i id e)

-- After user_set_id() the id reads back under the user's server and nick, in any case of letters,
-- and every other user keeps theirs; if the user is not found all users do.
pub user_get_id-user_set_id :
    (server t : ℤ) (nick n : Str) (id : ℤ) (s : Users)
    → let r = user_set_id server nick id s in
      user_get_id t n r.0
      ≡ (if r.1 && (int_eq server t && str_case_eq nick n) then id else user_get_id t n s)
unfolding user_set_id set_id_found
user_get_id-user_set_id server t nick n id s = elim (Option-cases (user_find server nick s.user)) [
  | inl e ↦ rw (e, set_id_found) refl
  | inr (i, e) ↦ rw (e, set_id_found) (get_id-with_id server t nick n s i id e)
]

module _ (db : UserDb) where
  open db use {userdb_find_bymask3, userdb_check_password}

  -- The ways out of user_auth().
  user_auth_cases {ℓ} :
      (P : Users × Bool → Type ℓ) (server : ℤ) (nick pw : Str) (s : Users)
      → P (s, false)
      → ((i : ℕ) (id : ℤ)
          → user_find server nick s.user ≡ some i
          → int_eq id (pos 0) ≡ false
          → userdb_check_password id (some pw) ≡ true
          → P (with_id id s i, true))
      → P (user_auth db server nick pw s)
  unfolding user_auth auth_found
  user_auth_cases P server nick pw s refused accepted =
      elim (Option-cases (user_find server nick s.user)) [
        | inl e ↦ rw (e, auth_found) refused
        | inr (i, e) ↦ rw (e, auth_found) (at_entry i e)
      ]
    where
      at_entry : (i : ℕ) → user_find server nick s.user ≡ some i → P (auth_found db pw s (some i))
      at_entry i e =
          let u = at s.user i in
          let id = userdb_find_bymask3 u.nick u.user u.host in
          elim (Bool-cases (int_eq id (pos 0))) [
            | inl unknown ↦ rw (unknown, auth_found) refused
            | inr known ↦ elim (Bool-cases (userdb_check_password id (some pw))) [
              | inl right ↦ rw (known, right, auth_found) (accepted i id e known right)
              | inr wrong ↦ rw (known, wrong, auth_found) refused
            ]
          ]

  -- user_auth() changes the id of nobody but the user of that server and nick, and of them only
  -- if it returns 0.
  pub user_get_id-user_auth :
      (server t : ℤ) (nick pw n : Str) (s : Users)
      → let r = user_auth db server nick pw s in
        user_get_id t n r.0 ≡ (
          if r.1 && (int_eq server t && str_case_eq nick n)
          then user_get_id server nick r.0
          else user_get_id t n s)
  user_get_id-user_auth server t nick pw n s =
      user_auth_cases
        (λ r. user_get_id t n r.0 ≡ (
          if r.1 && (int_eq server t && str_case_eq nick n)
          then user_get_id server nick r.0
          else user_get_id t n s))
        server nick pw s refl
        λ i id e known right.
          subst
            (λ x.
              user_get_id t n (with_id id s i)
              ≡ (if int_eq server t && str_case_eq nick n then x else user_get_id t n s))
            (sym (own_id server nick s i id e)) (get_id-with_id server t nick n s i id e)

  -- Where user_auth() returns 0, the id that the user then has is not 0, and the password is that of
  -- the id.
  pub user_auth-userdb_check_password :
      (server : ℤ) (nick pw : Str) (s : Users)
      → (user_auth db server nick pw s).1 ≡ true
      → let id = user_get_id server nick (user_auth db server nick pw s).0 in
        (id ≢ pos 0) × (userdb_check_password id (some pw) ≡ true)
  user_auth-userdb_check_password server nick pw s =
      user_auth_cases
        (λ r.
          r.1 ≡ true
          → (user_get_id server nick r.0 ≢ pos 0)
            × (userdb_check_password (user_get_id server nick r.0) (some pw) ≡ true))
        server nick pw s (λ e. absurd (cc e))
        λ i id e known right done.
          let own = own_id server nick s i id e in
          let valid : id ≢ pos 0 = λ z. cc ((int_eq_iff id (pos 0)).1 z, known) in
          subst (λ x. (x ≢ pos 0) × (userdb_check_password x (some pw) ≡ true)) (sym own)
            (valid, right)

  -- The answer of the database for the user that is found.
  pub user_auth_found :
      (server : ℤ) (nick pw : Str) (s : Users) (i : ℕ) (id : ℤ)
      → user_find server nick s.user ≡ some i
      → userdb_find_bymask3 (at s.user i).nick (at s.user i).user (at s.user i).host ≡ id
      → int_eq id (pos 0) ≡ false
      → (user_auth db server nick pw s).1 ≡ userdb_check_password id (some pw)
  unfolding user_auth auth_found
  user_auth_found server nick pw s i id e k z =
      elim (Bool-cases (userdb_check_password id (some pw))) [
        | inl right ↦ rw (e, k, z, right) refl
        | inr wrong ↦ rw (e, k, z, wrong) refl
      ]
