-- ===== src/Irc/Queue/Spec.antt =====
-- The abstract queue: the messages that wait, the newest first. Of those with the highest priority
-- the oldest is served next.
use mx3bot.Base.{
  ℕ, ◌+◌, ◌/◌, ◌%◌, ◌^◌, ◌≤◌, ◌<◌, ◌≡◌, refl, sym, ap, subst, ◌⊎◌, inl, inr, Bool, true, ◌&&◌,
  Option, none, some, List, [], ◌∷◌, map, arith, ltb, ◌==◌, if◌then◌else◌, Option-cases, Bool-cases,
}
use mx3bot.CString.{Str, str_eq, str_eq_iff}
use mx3bot.Table.{bit, tally}
use mx3bot.Irc.Queue.{Item}

pub record Message : Type 0 where
  pub priority : ℕ
  pub text : Str

abbrev pub serve_or :
    Message → List Message → Option (Message × List Message) → Option (Message × List Message)
serve_or m ms none = some (m, [])
serve_or m ms (some (b, r)) = if ltb b.priority m.priority then some (m, ms) else some (b, m ∷ r)

-- The message to send, and those that still wait.
abbrev pub serve : List Message → Option (Message × List Message)
serve [] = none
serve (m ∷ ms) = serve_or m ms (serve ms)

serve-none : (l : List Message) → serve l ≡ none → l ≡ []
serve-none [] h = refl
serve-none (m ∷ ms) h = elim (Option-cases (serve ms)) [
  | inl missing ↦ cc (rw missing at h)
  | inr ((b, r), found) ↦ ground (arith, rw found at h)
]

abbrev pub rank : Item → ℕ
rank x = x.p / 2 ^ 29

abbrev pub stamp : Item → ℕ
stamp x = x.p % 2 ^ 29

-- A queued item as a message: priorities 1 to 8 are kept as 0 to 7 in the high bits.
abbrev pub message : Item → Message
message x = record { priority = rank x + 1; text = x.d }

-- Newer items have smaller stamps, all of them above the counter.
abbrev pub IsStamped : ℕ → List Item → Type 0
IsStamped position [] = Unit {0}
IsStamped position (x ∷ xs) = (position < stamp x) × IsStamped (stamp x) xs

abbrev pub AtMost : ℕ → List Item → Type 0
AtMost p [] = Unit {0}
AtMost p (x ∷ xs) = (x.p ≤ p) × AtMost p xs

-- `x` is one of them.
abbrev pub Has : Item → List Item → Type 0
Has x [] = ⊥
Has x (y ∷ ys) = (x ≡ y) ⊎ Has x ys

IsStamped-lower :
    (k position : ℕ) (xs : List Item) → k ≤ position → IsStamped position xs → IsStamped k xs
IsStamped-lower k position [] h s = tt
IsStamped-lower k position (x ∷ xs) h s = (omega arith, s.1)

stamp-lt-Has :
    (position : ℕ) (x : Item) (xs : List Item)
    → IsStamped position xs
    → Has x xs
    → position < stamp x
stamp-lt-Has position x [] s h = elim h [ ]
stamp-lt-Has position x (y ∷ ys) s (inl e) = rw e s.0
stamp-lt-Has position x (y ∷ ys) s (inr h) = omega (arith, stamp-lt-Has (stamp y) x ys s.1 h)

abbrev RanksBelow : ℕ → List Item → Type 0
RanksBelow k [] = Unit {0}
RanksBelow k (x ∷ xs) = (rank x < k) × RanksBelow k xs

-- Among older items with no larger key, none has the same rank.
ranks_below :
    (x : Item) (position : ℕ) (xs : List Item)
    → stamp x ≤ position
    → IsStamped position xs
    → AtMost x.p xs
    → RanksBelow (rank x) xs
ranks_below x position [] l s h = tt
ranks_below x position (y ∷ ys) l s h =
    (omega arith, ranks_below x (stamp y) ys (omega arith) s.1 h.1)

serve-below :
    (k : ℕ) (xs : List Item) (b : Message) (r : List Message)
    → RanksBelow k xs
    → serve (map message xs) ≡ some (b, r)
    → b.priority ≤ k
serve-below k [] b r h e = cc
serve-below k (x ∷ xs) b r h e = elim (Option-cases (serve (map message xs))) [
  | inl missing ↦ ground (arith, rw (missing) at e)
  | inr ((b', r'), found) ↦ ground (arith, rw found at e, serve-below k xs b' r' h.1 found)
]

-- A newest item with the largest key is served before the others.
serve-newest :
    (x : Item) (position : ℕ) (xs : List Item)
    → stamp x ≤ position
    → IsStamped position xs
    → AtMost x.p xs
    → serve (map message (x ∷ xs)) ≡ some (message x, map message xs)
serve-newest x position xs l s h = elim (Option-cases (serve (map message xs))) [
  | inl missing ↦
      rw missing (ap (λ ms. some (message x, ms)) (sym (serve-none (map message xs) missing)))
  | inr ((b, r), found) ↦
      let low = serve-below (rank x) xs b r (ranks_below x position xs l s h) found in
      rw found (ground arith)
]

-- The item with the largest key is the message to serve.
pub record IsServed (position : ℕ) (x : Item) (xs : List Item) : Type 0 where
  pub rest : List Item
  pub next : serve (map message xs) ≡ some (message x, map message rest)
  pub removed : (t : Item → Bool) → bit (t x) + tally t rest ≡ tally t xs
  pub stamped : IsStamped position rest

pub serve-greatest :
    (position : ℕ) (x : Item) (xs : List Item)
    → IsStamped position xs
    → Has x xs
    → AtMost x.p xs
    → IsServed position x xs
unfolding tally
serve-greatest position x [] s h m = elim h [ ]
serve-greatest position x (y ∷ ys) s (inl e) m = record {
  rest = ys;
  next = rw e (serve-newest y (stamp y) ys (omega arith) s.1 (subst (λ z. AtMost z.p ys) e m.1));
  removed = λ t. rw e refl;
  stamped = IsStamped-lower position (stamp y) ys (omega arith) s.1;
}
serve-greatest position x (y ∷ ys) s (inr h) m =
    let ih = serve-greatest (stamp y) x ys s.1 h m.1 in
    record {
      rest = y ∷ ih.rest;
      next = let order = stamp-lt-Has (stamp y) x ys s.1 h in rw ih.next (ground (arith, m.0));
      removed = λ t. omega (arith, ih.removed t);
      stamped = (s.0, ih.stamped);
    }

abbrev pub item_eq : Item → Item → Bool
item_eq x y = (x.p == y.p) && str_eq x.d y.d

item_eq_sound : (x y : Item) → item_eq x y ≡ true → x ≡ y
item_eq_sound x y h = ground (arith, (str_eq_iff x.d y.d).0)

pub item_eq_refl : (x : Item) → item_eq x x ≡ true
item_eq_refl x = ground (arith, (str_eq_iff x.d x.d).1 refl)

pub Has-tally : (x : Item) (xs : List Item) → 1 ≤ tally (item_eq x) xs → Has x xs
unfolding tally
Has-tally x [] h = absurd (omega arith)
Has-tally x (y ∷ ys) h = elim (Bool-cases (item_eq x y)) [
  | inl same ↦ inl (item_eq_sound x y same)
  | inr other ↦ inr (Has-tally x ys (ground (arith, other)))
]

pub AtMost-tally : (p : ℕ) (xs : List Item) → tally (λ x. ltb p x.p) xs ≡ 0 → AtMost p xs
unfolding tally
AtMost-tally p [] h = tt
AtMost-tally p (y ∷ ys) h = (ground arith, AtMost-tally p ys (ground arith))
