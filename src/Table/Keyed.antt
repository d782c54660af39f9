-- ===== src/Table/Keyed.antt =====
-- Tables whose entries carry a key, a blank key marking a free slot: an entry is claimed by
-- writing a key into the first free slot and released by blanking its key.
use mx3bot.Base.{
  ℕ, ◌≤◌, ◌<◌, ◌≡◌, sym, ap, ◌∙◌, inl, inr, Bool, true, false, none, some, List, arith,
  if◌then◌else◌, Bool-cases, length, set, get_or,
}
use mx3bot.CString.{
  Str, is_empty, str_case_eq, str_case_eq_cong, str_case_eq_empty, str_case_eq_refl,
  str_case_eq_sym,
}
use mx3bot.Table.{
  first_index, first_index-hit, first_index-none_iff, first_index-set_gone, first_index-set_new,
  first_index-set_same, first_index_cong, tally, tally-set, tally_cong,
}

-- How keys are compared, and which key marks a free slot.
pub record Keys {ℓ} (K : Type ℓ) : Type ℓ where
  pub same : K → K → Bool
  pub blank : K → Bool
  pub same_refl : (k : K) → same k k ≡ true
  pub same_sym : (a k : K) → same a k ≡ same k a
  pub same_cong : (a b k : K) → same a b ≡ true → same a k ≡ same b k
  pub same_blank : (a k : K) → blank k ≡ false → blank a ≡ true → same a k ≡ false

module _ {ℓ κ} {K : Type ℓ} {A : Type κ} (keys : Keys K) (key : A → K) where
  abbrev pub keyed : K → A → Bool
  keyed k a = keys.same (key a) k

  abbrev pub vacant : A → Bool
  vacant a = keys.blank (key a)

  -- No two entries hold the same key, blank ones aside.
  abbrev pub Distinct : List A → Type ℓ
  Distinct xs = (k : K) → keys.blank k ≡ false → tally (keyed k) xs ≤ 1

  -- Where one key is not found, no key equal to it is.
  tally-keyed_same :
      (xs : List A) (a k : K) → keys.same a k ≡ true → tally (keyed a) xs ≡ tally (keyed k) xs
  tally-keyed_same xs a k e =
      tally_cong (keyed a) (keyed k) xs
        λ x. keys.same_sym (key x) a ∙ keys.same_cong a k (key x) e ∙ keys.same_sym k (key x)

  module _ (xs : List A) (i : ℕ) (v d : A) (inside : i < length xs) where
    -- A write of a key that was nowhere, over a free slot.
    pub claim-Distinct :
        first_index (keyed (key v)) xs ≡ none
        → vacant (get_or xs i d) ≡ true
        → Distinct xs
        → Distinct (set xs i v)
    claim-Distinct missing free dis k h = elim (Bool-cases (keys.same (key v) k)) [
      | inl e ↦
          let count = tally-set (keyed k) xs i v d inside in
          let zero_of = (first_index-none_iff (keyed (key v)) xs).0 missing in
          let moved = tally-keyed_same xs (key v) k e in ground (arith, count, zero_of, moved, e)
      | inr e ↦ let count = tally-set (keyed k) xs i v d inside in ground (arith, count, dis k h, e)
    ]

    pub clear-Distinct : vacant v ≡ true → Distinct xs → Distinct (set xs i v)
    clear-Distinct gone dis k h =
        ground
          (arith, tally-set (keyed k) xs i v d inside, dis k h, keys.same_blank (key v) k h gone)

    -- A write that keeps the key.
    pub keep-Distinct : key v ≡ key (get_or xs i d) → Distinct xs → Distinct (set xs i v)
    keep-Distinct e dis k h =
        ground
          (arith, tally-set (keyed k) xs i v d inside, dis k h, ap (λ (x : K). keys.same x k) e)

    -- A key other than those of the old and the new entry is found where it was.
    pub write_other :
        (k : K)
        → keys.blank k ≡ false
        → keys.same (key v) k ≡ false
        → keys.same (key (get_or xs i d)) k ≡ false
        → first_index (keyed k) (set xs i v) ≡ first_index (keyed k) xs
    write_other k h e e' = first_index-set_same (keyed k) xs i v d (e ∙ sym e')

    pub claim_found :
        first_index (keyed (key v)) xs ≡ none → first_index (keyed (key v)) (set xs i v) ≡ some i
    claim_found missing =
        first_index-set_new (keyed (key v)) xs i v missing (keys.same_refl (key v)) inside

    pub clear_gone :
        (k : K)
        → keys.blank k ≡ false
        → vacant v ≡ true
        → Distinct xs
        → first_index (keyed k) xs ≡ some i
        → first_index (keyed k) (set xs i v) ≡ none
    clear_gone k h gone dis found =
        first_index-set_gone (keyed k) xs i v d found (dis k h) (keys.same_blank (key v) k h gone)

module _ {ℓ κ} {K : Type ℓ} {A : Type κ} (keys : Keys K) (key : A → K) (xs : List A) where
  -- Equal keys are found at one place.
  first_index-keyed_same :
      (n k : K)
      → keys.same n k ≡ true
      → first_index (keyed keys key k) xs ≡ first_index (keyed keys key n) xs
  first_index-keyed_same n k e =
      first_index_cong (keyed keys key k) (keyed keys key n) xs
        λ x. keys.same_sym (key x) k ∙ sym (keys.same_cong n k (key x) e) ∙ keys.same_sym n (key x)

  pub known_lookup :
      (n k : K)
      → first_index (keyed keys key k) xs ≡ (
          if keys.same n k
          then first_index (keyed keys key n) xs
          else first_index (keyed keys key k) xs)
  known_lookup n k = elim (Bool-cases (keys.same n k)) [
    | inl e ↦ rw e (first_index-keyed_same n k e)
    | inr e ↦ rw e
  ]

module _ {ℓ κ} {K : Type ℓ} {A : Type κ} (keys : Keys K) (key : A → K) (xs : List A) (i : ℕ)
    (v d : A) (inside : i < length xs) (k : K) (solid : keys.blank k ≡ false) where
  -- What a lookup sees after a slot is claimed.
  pub claim_lookup :
      first_index (keyed keys key (key v)) xs ≡ none
      → vacant keys key (get_or xs i d) ≡ true
      → first_index (keyed keys key k) (set xs i v)
        ≡ (if keys.same (key v) k then some i else first_index (keyed keys key k) xs)
  claim_lookup missing free = elim (Bool-cases (keys.same (key v) k)) [
    | inl e ↦ rw e (
        first_index-keyed_same keys key (set xs i v) (key v) k e
        ∙ claim_found keys key xs i v d inside missing)
    | inr e ↦ rw e (write_other keys key xs i v d inside k solid e (keys.same_blank _ k solid free))
  ]

  -- What a lookup sees after the slot of key `n` is released.
  pub clear_lookup :
      (n : K)
      → first_index (keyed keys key n) xs ≡ some i
      → Distinct keys key xs
      → vacant keys key v ≡ true
      → first_index (keyed keys key k) (set xs i v)
        ≡ (if keys.same n k then none else first_index (keyed keys key k) xs)
  clear_lookup n found dis gone = elim (Bool-cases (keys.same n k)) [
    | inl e ↦ rw e (
        clear_gone keys key xs i v d inside k solid gone dis
          (first_index-keyed_same keys key xs n k e ∙ found))
    | inr e ↦ rw e (
        write_other keys key xs i v d inside k solid (keys.same_blank (key v) k solid gone)
          (keys.same_cong _ n k (first_index-hit (keyed keys key n) xs i d found) ∙ e))
  ]

-- The keys of most tables are names, compared by strcasecmp.
abbrev pub str_keys : Keys Str
str_keys = record {
  same = str_case_eq;
  blank = is_empty;
  same_refl = str_case_eq_refl;
  same_sym = str_case_eq_sym;
  same_cong = str_case_eq_cong;
  same_blank = str_case_eq_empty;
}
