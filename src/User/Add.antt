-- ===== src/User/Add.antt =====
-- user.c: adding a user.
use mx3bot.Base.{
  ℕ, zero, suc, ◌≡◌, ◌≢◌, ◌<◌, ◌≤◌, refl, sym, ◌∙◌, subst, inl, inr, Bool, true, false, ◌&&◌,
  Option, none, some, List, [], length-set, ap, ◌++◌, arith, if◌then◌else◌, length, Option-cases,
  replicate, set,
}
use mx3bot.Base.Int.{ℤ, int_eq, negsuc}
use mx3bot.CString.{Str, is_empty, str_case_eq, strncpy_fits}
use mx3bot.Table.{
  first_index, first_index-hit, first_index-lt, first_index-append, first_index-append_hit, tally,
  tally-append, tally-replicate,
}
use mx3bot.Table.Keyed.{keyed, vacant, claim-Distinct, claim_lookup, known_lookup}
use mx3bot.User.{
  UserDb, User, Users, added, add_rounds, add_missing, add_new, grow_users, at, cleared, user_add,
  user_find,
}
use mx3bot.User.Keys.{AreDistinct, UserKey, same_user, same_user_blank, user_key, user_keys}

added-key :
    (db : UserDb) (now : ℕ) (server : ℤ) (nick username host : Str) (u : User)
    → length nick < 32
    → user_key (added db now server nick username host u) ≡ (server, nick)
unfolding added
added-key db now server nick username host u short =
    ap (λ (n : Str). (server, n)) (strncpy_fits 32 nick (omega arith))

abbrev is_free : User → Bool
is_free = vacant user_keys user_key

abbrev is_keyed : UserKey → User → Bool
is_keyed = keyed user_keys user_key

cleared_not_found :
    (junk : User) (k : UserKey) → is_empty k.1 ≡ false → is_keyed k (cleared junk) ≡ false
cleared_not_found junk k h = same_user_blank (negsuc 0, []) k h refl

has_room :
    (n : ℕ)
    → 1 ≤ n
    → (t : List User) (junk : User) → first_index is_free (t ++ replicate n (cleared junk)) ≢ none
has_room zero h t junk = elim h [ ]
has_room (suc n) h t junk =
    first_index-append_hit is_free t (cleared junk) (replicate n (cleared junk)) refl

module _ (db : UserDb) (now : ℕ) (junk : User) (server : ℤ) (nick username host : Str)
    (short : length nick < 32) (solid : is_empty nick ≡ false) where
  -- An entry claimed in a table where the user is not found.
  claimed_find :
      (t : List User) (i : ℕ) (k : UserKey)
      → is_empty k.1 ≡ false
      → first_index (is_keyed (server, nick)) t ≡ none
      → first_index is_free t ≡ some i
      → first_index (is_keyed k) (set t i (added db now server nick username host (at t i)))
        ≡ (if same_user (server, nick) k then some i else first_index (is_keyed k) t)
  claimed_find t i k named missing free =
      let u = added db now server nick username host (at t i) in
      let same = added-key db now server nick username host (at t i) short in
      subst
        (λ key.
          first_index (is_keyed k) (set t i u)
          ≡ (if same_user key k then some i else first_index (is_keyed k) t))
        same
        (claim_lookup user_keys user_key t i u (at [] 0) (first_index-lt is_free t i free) k named
          (subst (λ key. first_index (is_keyed key) t ≡ none) (sym same) missing)
          (first_index-hit is_free t i (at [] 0) free))

  claimed-AreDistinct :
      (t : List User) (i : ℕ)
      → first_index (is_keyed (server, nick)) t ≡ none
      → first_index is_free t ≡ some i
      → AreDistinct t
      → AreDistinct (set t i (added db now server nick username host (at t i)))
  claimed-AreDistinct t i missing free distinct =
      let u = added db now server nick username host (at t i) in
      let same = added-key db now server nick username host (at t i) short in
      claim-Distinct user_keys user_key t i u (at [] 0) (first_index-lt is_free t i free)
        (subst (λ key. first_index (is_keyed key) t ≡ none) (sym same) missing)
        (first_index-hit is_free t i (at [] 0) free) distinct

  -- What user_add() does to the table `t`: the user is there, or an entry is claimed for it.
  record IsAdded (t : List User) (r : Users × Option ℕ) : Type 0 where
    found :
        (k : UserKey)
        → is_empty k.1 ≡ false
        → first_index (is_keyed k) r.0.user
          ≡ (if same_user (server, nick) k then r.1 else first_index (is_keyed k) t)
    index : (i : ℕ) × (r.1 ≡ some i) × (i < length r.0.user)
    distinct : AreDistinct t → AreDistinct r.0.user

  add_new-IsAdded :
      (again : Users → Users × Option ℕ) (s : Users) (i : ℕ)
      → first_index (is_keyed (server, nick)) s.user ≡ none
      → first_index is_free s.user ≡ some i
      → IsAdded s.user (add_new db now true junk server nick username host again s (some i))
  unfolding add_new
  add_new-IsAdded again s i missing free =
      let u = added db now server nick username host (at s.user i) in
      record {
        found = λ k named. claimed_find s.user i k named missing free;
        index = (i, refl, rw (length-set s.user i u) (first_index-lt is_free s.user i free));
        distinct = claimed-AreDistinct s.user i missing free;
      }

  module _ (s : Users) (room : 1 ≤ s.n_grow) where
    abbrev grown : List User
    grown = s.user ++ replicate s.n_grow (cleared junk)

    grown_tally :
        (k : UserKey)
        → is_empty k.1 ≡ false
        → tally (is_keyed k) (replicate s.n_grow (cleared junk)) ≡ 0
    grown_tally k named =
        tally-replicate (is_keyed k) s.n_grow (cleared junk) (cleared_not_found junk k named)

    grown_find :
        (k : UserKey)
        → is_empty k.1 ≡ false
        → first_index (is_keyed k) grown ≡ first_index (is_keyed k) s.user
    grown_find k named =
        first_index-append (is_keyed k) s.user (replicate s.n_grow (cleared junk))
          (grown_tally k named)

    grown-AreDistinct : AreDistinct s.user → AreDistinct grown
    grown-AreDistinct distinct k named = omega (
      arith,
      tally-append (is_keyed k) s.user (replicate s.n_grow (cleared junk)),
      grown_tally k named,
      distinct k named,
    )

    grown_has_room : first_index is_free grown ≢ none
    grown_has_room = has_room s.n_grow room s.user junk

    grown-IsAdded : (r : Users × Option ℕ) → IsAdded grown r → IsAdded s.user r
    grown-IsAdded r a = record {
      found = λ k named. rw (grown_find k named) at (a.found k named);
      index = a.index;
      distinct = λ d. a.distinct (grown-AreDistinct d);
    }

    -- The second round.
    second_round :
        first_index (is_keyed (server, nick)) s.user ≡ none
        → IsAdded s.user
            (add_rounds db now true junk server nick username host 1 (record s { user = grown }))
    unfolding add_rounds add_missing user_find
    second_round missing = elim (Option-cases (first_index is_free grown)) [
      | inl full ↦ absurd (grown_has_room full)
      | inr (i, free) ↦
          let absent = grown_find (server, nick) solid ∙ missing in
          let a =
            add_new-IsAdded (add_rounds db now true junk server nick username host 0)
              (record s { user = grown }) i absent free in
          rw (absent, add_missing, free) (grown-IsAdded _ a)
    ]

  -- The ways through user_add() with memory.
  user_add-IsAdded :
      (s : Users)
      → 1 ≤ s.n_grow
      → IsAdded s.user (user_add db now true junk server nick username host s)
  unfolding user_add add_missing user_find grow_users
  user_add-IsAdded s room = elim (Option-cases (first_index (is_keyed (server, nick)) s.user)) [
    | inr (i, e) ↦
        rw (e, add_missing)
          (record {
            found = λ k named. rw e at (known_lookup user_keys user_key s.user (server, nick) k);
            index = (i, refl, first_index-lt (is_keyed (server, nick)) s.user i e);
            distinct = λ d. d;
          })
    | inl missing ↦ elim (Option-cases (first_index is_free s.user)) [
      | inr (i, free) ↦
          rw (missing, add_missing, free)
            (add_new-IsAdded (add_rounds db now true junk server nick username host 1) s i missing
              free)
      | inl full ↦ rw (missing, add_missing, full) (second_round s room missing)
    ]
  ]

  module _ (s : Users) (room : 1 ≤ s.n_grow) where
    -- Where malloc() and realloc() give memory and the table grows by at least one entry at a
    -- time, user_add() with a nick of 1 to 31 bytes returns the index of an entry. From then on
    -- user_find() finds the user there, under the nick in any case of letters, and finds every
    -- user of another server or nick where it did before.
    pub user_find-user_add :
        (t : ℤ) (n : Str)
        → is_empty n ≡ false
        → let r = user_add db now true junk server nick username host s in
          ((i : ℕ) × (r.1 ≡ some i) × (i < length r.0.user))
          × (user_find t n r.0.user
              ≡ (if int_eq server t && str_case_eq nick n then r.1 else user_find t n s.user))
    unfolding user_find
    user_find-user_add t n named =
        let a = user_add-IsAdded s room in (a.index, a.found (t, n) named)

    -- Where malloc() and realloc() give memory and the table grows by at least one entry at a time,
    -- no two entries are of one user after `user_add` with a nick of 1 to 31 bytes if none were
    -- before.
    pub user_add-AreDistinct :
        AreDistinct s.user
        → AreDistinct (user_add db now true junk server nick username host s).0.user
    user_add-AreDistinct distinct = (user_add-IsAdded s room).distinct distinct
