-- ===== src/Misc/Create/Meaning.antt =====
-- The mask that mask_create() makes of an ident means that ident.
use mathlib.Core.List.{append_assoc}
use mx3bot.Base.{
  ◌<◌, take_all, Yields, yields, ℕ, ◌-◌, ◌≡◌, refl, sym, subst, ap, inl, inr, Bool, true, false,
  some, some_eq, [], ◌∷◌, ◌++◌, ◌==◌, leb, length, arith, Bool-cases, Option-cases,
}
use mx3bot.CString.{Str, is_digit, to_lower}
use mx3bot.Misc.Create.{
  any_nick, before_last_dot, ends_in_digit, mask_create2, domain, mask_of, network, without_tilde,
}
use mx3bot.Misc.Mask.Glob.{Glob, done, char, skip, more}
use mx3bot.Misc.Mask.Plain.{IsPlain}
use mx3bot.Misc.Mask.Starred.{Glob-text}

-- A text without wildcards means itself.
Glob-self : (s : Str) → IsPlain s → Glob s s
Glob-self [] h = done
Glob-self (c ∷ s) h = char h.0 refl (Glob-self s h.1)

-- One wildcard means any text.
Glob-any : (s : Str) → Glob (b'*' ∷ []) s
Glob-any [] = skip refl done
Glob-any (c ∷ s) = more refl (Glob-any s)

-- The domain with a wildcard before it.
Glob-domain : (host : Str) → IsPlain host → Glob (b'*' ∷ domain host) host
unfolding domain
Glob-domain [] h = skip refl done
Glob-domain (c ∷ s) h = elim (Bool-cases (c == b'.')) [
  | inl dot ↦ rw dot (skip refl (Glob-self (c ∷ s) h))
  | inr other ↦ rw other (more refl (Glob-domain s h.1))
]

-- The network with a wildcard behind it.
Glob-network :
    (host t : Str)
    → IsPlain host
    → before_last_dot host ≡ some t
    → Glob (t ++ b'.' ∷ b'*' ∷ []) host
unfolding before_last_dot
Glob-network [] t h e = absurd (cc e)
Glob-network (c ∷ s) t h e = elim (Option-cases (before_last_dot s)) [
  | inr (u, found) ↦
      subst (λ x. Glob (x ++ b'.' ∷ b'*' ∷ []) (c ∷ s)) (some_eq (rw found at e))
        (char h.0 refl (Glob-network s u h.1 found))
  | inl missing ↦ elim (Bool-cases (c == b'.')) [
    | inl dot ↦
        let here : c ≡ b'.' = ground (arith, dot) in
        subst (λ x. Glob (x ++ b'.' ∷ b'*' ∷ []) (c ∷ s)) (some_eq (rw (missing, dot) at e))
          (char (λ z. omega arith) (sym (ap to_lower here)) (Glob-any s))
    | inr other ↦ absurd (cc (rw (missing, other) at e))
  ]
]

-- A tilde before the user name is left to the wildcard.
Glob-user :
    (user m v : Str) → IsPlain user → Glob m v → Glob (b'*' ∷ (without_tilde user ++ m)) (user ++ v)
unfolding without_tilde
Glob-user [] m v h g = skip refl g
Glob-user (c ∷ s) m v h g = elim (Bool-cases (c == b'~')) [
  | inl tilde ↦ rw tilde (more refl (skip refl (Glob-text s m v h.1 g)))
  | inr other ↦ rw other (skip refl (Glob-text (c ∷ s) m v h g))
]

Glob-nick : (nick m v : Str) → Glob m v → Glob (b'*' ∷ (b'!' ∷ m)) (nick ++ b'!' ∷ v)
Glob-nick [] m v g = skip refl (char (λ z. omega arith) refl g)
Glob-nick (c ∷ nick) m v g = more refl (Glob-nick nick m v g)

Glob-any_nick :
    (nick user m host : Str)
    → IsPlain user
    → Glob m host
    → Glob (any_nick (without_tilde user) ++ m) (nick ++ b'!' ∷ (user ++ b'@' ∷ host))
Glob-any_nick nick user m host h g =
    rw (append_assoc (without_tilde user) (b'@' ∷ []) m)
      (Glob-nick nick _ _ (Glob-user user _ _ h (char (λ z. omega arith) refl g)))

digit_cases : (c : ℕ) (s : Str) → (digit : Bool) × (ends_in_digit (c ∷ s) ≡ some digit)
unfolding ends_in_digit
digit_cases c [] = (is_digit c, refl)
digit_cases c (d ∷ s) = digit_cases d s

dotted_digit :
    (host t : Str)
    → before_last_dot host ≡ some t
    → (digit : Bool) × (ends_in_digit host ≡ some digit)
unfolding before_last_dot
dotted_digit [] t e = absurd (cc e)
dotted_digit (c ∷ s) t e = digit_cases c s

module _ (nick user host : Str) (h : IsPlain user) (k : IsPlain host) (t : Str)
    (dotted : before_last_dot host ≡ some t) where
  mask_of-Glob :
      (digit : Bool)
      → Glob (mask_of (without_tilde user) host digit) (nick ++ b'!' ∷ (user ++ b'@' ∷ host))
  unfolding mask_of network
  mask_of-Glob true =
      rw (dotted, network)
        (Glob-any_nick nick user (t ++ b'.' ∷ b'*' ∷ []) host h (Glob-network host t k dotted))
  mask_of-Glob false = elim (Bool-cases (leb (length (domain host)) 4)) [
    | inl short ↦ rw short (Glob-any_nick nick user host host h (Glob-self host k))
    | inr long ↦ rw long (Glob-any_nick nick user (b'*' ∷ domain host) host h (Glob-domain host k))
  ]

  -- For a user and a host without wildcards and a host of less than 256 bytes with a dot, and with
  -- room for the mask, mask_create2() returns a mask that means nick!user@host for every nick.
  pub mask_create2-Glob :
      (maxlen : ℕ)
      → length host < 256
      → ((digit : Bool) → length (mask_of (without_tilde user) host digit) < maxlen)
      → Yields
          (λ mask. Glob mask (nick ++ b'!' ∷ (user ++ b'@' ∷ host)))
          (mask_create2 user host maxlen)
  unfolding mask_create2
  mask_create2-Glob maxlen short room =
      let (digit, e) = dotted_digit host t dotted in
      let fits : leb 256 (length host) ≡ false = ground (arith, short) in
      rw (fits, e)
        (yields (
          subst (λ m. Glob m (nick ++ b'!' ∷ (user ++ b'@' ∷ host)))
            (sym (
              take_all (maxlen - 1) (mask_of (without_tilde user) host digit)
                (omega (arith, room digit))))
            (mask_of-Glob digit)))
