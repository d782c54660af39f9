-- ===== src/User/Gone.antt =====
-- src/user.c: users that are no longer in sight.
use mx3bot.Base.{
  ◌≡◌, ◌≤◌, ◌<◌, ℕ, zero, suc, ◌+◌, refl, Bool, true, false, Bool-cases, inl, inr, none, some, List,
  [], ◌∷◌, arith, if◌then◌else◌, map, set,
}
use mx3bot.Base.Int.{ℤ, int_eq, int_eq_iff}
use mx3bot.CString.{Str, is_empty, str_case_eq_empty}
use mx3bot.Table.{first_index, tally}
use mx3bot.User.{User, Users, at, is_user, part_found, user_find, user_part}
use mx3bot.User.Keys.{AreDistinct}
use mx3bot.User.Session.{expired, user_update}

module _ {ℓ} {A : Type ℓ} (p : A → Bool) (f : A → A) where
  -- Nobody passes who is changed so.
  pub first_index-map-none :
      ((x : A) → p (f x) ≡ false) → (xs : List A) → first_index p (map f xs) ≡ none
  unfolding first_index
  first_index-map-none h [] = refl
  first_index-map-none h (x ∷ xs) = rw (h x, first_index-map-none h xs) refl

  pub first_index-map_same :
      ((x : A) → p (f x) ≡ p x) → (xs : List A) → first_index p (map f xs) ≡ first_index p xs
  unfolding first_index
  first_index-map_same h [] = refl
  first_index-map_same h (x ∷ xs) = rw (h x, first_index-map_same h xs) refl

  first_index-map_absent :
      ((x : A) → p x ≡ false → p (f x) ≡ false)
      → (xs : List A) → tally p xs ≡ 0
      → first_index p (map f xs) ≡ none
  unfolding first_index tally
  first_index-map_absent h [] e = refl
  first_index-map_absent h (x ∷ xs) e =
      let absent : p x ≡ false = ground (arith, e) in
      rw (h x absent, first_index-map_absent h xs (ground (arith, e))) refl

  -- The only one that passes is replaced by one that does not once it is changed.
  pub first_index-map_gone :
      ((x : A) → p x ≡ false → p (f x) ≡ false)
      → (v : A) → p (f v) ≡ false
      → (xs : List A) (i : ℕ) → tally p xs ≤ 1
      → first_index p xs ≡ some i
      → first_index p (map f (set xs i v)) ≡ none
  unfolding first_index tally
  first_index-map_gone h v k [] i e found = cc
  first_index-map_gone h v k (x ∷ xs) zero e found =
      let here : p x ≡ true = ground (arith, found) in
      rw (k, first_index-map_absent h xs (ground (arith, e, here))) refl
  first_index-map_gone h v k (x ∷ xs) (suc i) e found =
      let absent : p x ≡ false = ground (arith, found) in
      let later : first_index p xs ≡ some i = ground (arith, found) in
      rw (h x absent, first_index-map_gone h v k xs i (ground (arith, e)) later) refl

-- No nick that is not empty is that of an entry without one.
no_nick :
    (server : ℤ) (nick : Str) (u : User)
    → is_empty nick ≡ false
    → is_empty u.nick ≡ true
    → is_user server nick u ≡ false
no_nick server nick u h e = ground (arith, str_case_eq_empty u.nick nick h e)

purged-is_user :
    (server : ℤ) (nick : Str) (u : User)
    → is_empty nick ≡ false
    → is_user server nick
        (if int_eq u.server server then record u { nick = []; user = []; host = [] } else u)
      ≡ false
purged-is_user server nick u h = elim (Bool-cases (int_eq u.server server)) [
  | inl e ↦ rw e (no_nick server nick (record u { nick = []; user = []; host = [] }) h refl)
  | inr e ↦ rw (e, e) refl
]

purged-is_user_other :
    (server server' : ℤ) (nick : Str) (u : User)
    → int_eq server' server ≡ false
    → is_empty nick ≡ false
    → is_user server' nick
        (if int_eq u.server server then record u { nick = []; user = []; host = [] } else u)
      ≡ is_user server' nick u
purged-is_user_other server server' nick u d h = elim (Bool-cases (int_eq u.server server)) [
  | inl e ↦
      let elsewhere : int_eq u.server server' ≡ false = ground (
        arith,
        d,
        (int_eq_iff u.server server).0 e,
        (int_eq_iff u.server server').0,
        (int_eq_iff server' server).1,
      ) in
      rw (e, elsewhere) refl
  | inr e ↦ rw e refl
]

expired-is_user :
    (now delay : ℕ) (server : ℤ) (nick : Str) (u : User)
    → is_empty nick ≡ false
    → is_user server nick u ≡ false
    → is_user server nick
        (if expired now delay u then record u { nick = []; user = []; host = [] } else u)
      ≡ false
expired-is_user now delay server nick u h e = elim (Bool-cases (expired now delay u)) [
  | inl x ↦ rw x (no_nick server nick (record u { nick = []; user = []; host = [] }) h refl)
  | inr x ↦ rw x e
]

-- Once a server is purged nobody on it is in sight, and everybody else is.
pub user_find-user_part_all :
    (now : ℕ) (server : ℤ) (nick : Str) (s : Users)
    → is_empty nick ≡ false
    → user_find server nick (user_part now server none none s).0.user ≡ none
unfolding user_find user_part
user_find-user_part_all now server nick s h =
    first_index-map-none (is_user server nick) _ (λ u. purged-is_user server nick u h) s.user

pub user_find-user_part_other :
    (now : ℕ) (server server' : ℤ) (nick : Str) (s : Users)
    → int_eq server' server ≡ false
    → is_empty nick ≡ false
    → user_find server' nick (user_part now server none none s).0.user
      ≡ user_find server' nick s.user
unfolding user_find user_part
user_find-user_part_other now server server' nick s d h =
    first_index-map_same (is_user server' nick) _
      (λ u. purged-is_user_other server server' nick u d h) s.user

-- Who has left IRC is out of sight once the delay is over.
pub user_find-user_update_left :
    (now now' delay : ℕ) (server : ℤ) (nick : Str) (s : Users) (i : ℕ)
    → is_empty nick ≡ false
    → AreDistinct s.user
    → user_find server nick s.user ≡ some i
    → is_empty (at s.user i).nick ≡ false
    → 1 + delay < now'
    → user_find server nick
        (user_update now' delay (user_part now server none (some nick) s).0).user
      ≡ none
unfolding user_find user_part part_found user_update
user_find-user_update_left now now' delay server nick s i h distinct found named late =
    let left : User = record (at s.user i) { lost = 1 } in
    let over : expired now' delay left ≡ true = rw (expired, named) (ground arith) in
    let out = no_nick server nick (record left { nick = []; user = []; host = [] }) h refl in
    rw (found, part_found)
      (first_index-map_gone (is_user server nick) _
        (λ u e. expired-is_user now' delay server nick u h e) left (rw over out) s.user i
        (distinct (server, nick) h) found)
