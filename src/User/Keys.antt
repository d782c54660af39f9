-- ===== src/User/Keys.antt =====
-- The users as a table keyed by server and nick.
use mx3bot.Base.{◌≡◌, refl, Bool, true, false, ◌&&◌, List, arith}
use mx3bot.Base.Int.{ℤ, pos, negsuc, int_eq, int_eq_iff}
use mx3bot.CString.{
  Str, is_empty, str_case_eq, str_case_eq_refl, str_case_eq_sym, str_case_eq_cong,
  str_case_eq_empty,
}
use mx3bot.Table.Keyed.{Keys, Distinct}
use mx3bot.User.{User}

abbrev pub UserKey : Type 0
UserKey = ℤ × Str

abbrev pub same_user : UserKey → UserKey → Bool
same_user (s, n) (s', n') = int_eq s s' && str_case_eq n n'

pub same_user_refl : (k : UserKey) → same_user k k ≡ true
same_user_refl (s, n) = ground (arith, (int_eq_iff s s).1 refl, str_case_eq_refl n)

int_eq_sym : (a b : ℤ) → int_eq a b ≡ int_eq b a
int_eq_sym (pos a) (pos b) = ground arith
int_eq_sym (pos a) (negsuc b) = refl
int_eq_sym (negsuc a) (pos b) = refl
int_eq_sym (negsuc a) (negsuc b) = ground arith

pub same_user_sym : (a k : UserKey) → same_user a k ≡ same_user k a
same_user_sym (s, n) (s', n') = rw (int_eq_sym s s', str_case_eq_sym n n')

pub same_user_cong : (a b k : UserKey) → same_user a b ≡ true → same_user a k ≡ same_user b k
same_user_cong (s, n) (s', n') (t, m) h =
    ground (arith, (int_eq_iff s s').0, str_case_eq_cong n n' m)

pub same_user_blank :
    (a k : UserKey) → is_empty k.1 ≡ false → is_empty a.1 ≡ true → same_user a k ≡ false
same_user_blank (s, n) (t, m) h e = ground (arith, str_case_eq_empty n m h e)

abbrev pub user_keys : Keys UserKey
user_keys = record {
  same = same_user;
  blank = λ k. is_empty k.1;
  same_refl = same_user_refl;
  same_sym = same_user_sym;
  same_cong = same_user_cong;
  same_blank = same_user_blank;
}

abbrev pub user_key : User → UserKey
user_key u = (u.server, u.nick)

-- No two entries are of one user.
abbrev pub AreDistinct : List User → Type 0
AreDistinct = Distinct user_keys user_key
