-- ===== src/Nib/Policies/Newest.antt =====
-- pdsno/datastore/sqlite_store.py: which policy is active.
use mathlib.Core.Path.{subst}
use mathlib.Core.Option.{some-injective}
use mathlib.Core.Bool.{true≢false}
use partially_distributed_sm.Common.{
  All, Bool, Bool-cases, List, Option, String, [], arith, filter, inl, inr, ltb, nat_eq, none, some,
  string_eq, sym, true, ◌∙◌, ◌∷◌, ◌≡◌, ◌≢◌, ◌≤◌,
}
use partially_distributed_sm.Nib.Models.{Policy}
use partially_distributed_sm.Nib.Store.{NibStore}
use partially_distributed_sm.Nib.Policies.{get_active_policy, is_applicable, newest}

-- What all policies of a list satisfy, the best one before them does too.
abbrev OfBest : (Policy → Type 0) → Option Policy → Type 0
OfBest P none = Unit
OfBest P (some b) = P b

newest-All :
    (P : Policy → Type 0) (best : Option Policy) (rows : List Policy) (b : Policy)
    → OfBest P best
    → All P rows
    → newest best rows ≡ some b
    → P b
newest-All P (some a) [] b h hs e = subst P (some-injective a b e) h
newest-All P none [] b h hs e = cc
newest-All P none (r ∷ rows) b h (k, hs) e = newest-All P (some r) rows b k hs e
newest-All P (some a) (r ∷ rows) b h (k, hs) e = elim (Bool-cases (ltb a.version r.version)) [
  | inl newer ↦ newest-All P (some r) rows b k hs (rw newer at e)
  | inr older ↦ newest-All P (some a) rows b h hs (rw older at e)
]

newest-ge :
    (a : Policy) (rows : List Policy) (b : Policy)
    → newest (some a) rows ≡ some b
    → (a.version ≤ b.version) × All (λ (r : Policy). r.version ≤ b.version) rows
newest-ge a [] b e =
    (subst (λ (x : Policy). a.version ≤ x.version) (some-injective a b e) (omega arith), tt)
newest-ge a (r ∷ rows) b e = elim (Bool-cases (ltb a.version r.version)) [
  | inl newer ↦
      let (up, rest) = newest-ge r rows b (rw newer at e) in (ground (arith, newer, up), (up, rest))
  | inr older ↦
      let (up, rest) = newest-ge a rows b (rw older at e) in (up, (ground (arith, older, up), rest))
]

newest-some : (a : Policy) (rows : List Policy) → newest (some a) rows ≢ none
newest-some a [] h = cc
newest-some a (r ∷ rows) h = elim (Bool-cases (ltb a.version r.version)) [
  | inl newer ↦ newest-some r rows (rw newer at h)
  | inr older ↦ newest-some a rows (rw older at h)
]

filter-All :
    (q : Policy → Bool) (P : Policy → Type 0) (rows : List Policy)
    → All (λ (r : Policy). q r ≡ true → P r) rows
    → All P (filter q rows)
filter-All q P [] h = tt
filter-All q P (r ∷ rows) (h, hs) = elim (Bool-cases (q r)) [
  | inl passes ↦ rw passes (h passes, filter-All q P rows hs)
  | inr fails ↦ rw fails (filter-All q P rows hs)
]

unfilter-All :
    (q : Policy → Bool) (P : Policy → Type 0) (rows : List Policy)
    → All P (filter q rows)
    → All (λ (r : Policy). q r ≡ true → P r) rows
unfilter-All q P [] h = tt
unfilter-All q P (r ∷ rows) h = elim (Bool-cases (q r)) [
  | inl passes ↦ let (k, ks) = rw passes at h in (λ e. k, unfilter-All q P rows ks)
  | inr fails ↦ (λ e. absurd (true≢false (sym e ∙ fails)), unfilter-All q P rows (rw fails at h))
]

kept : (q : Policy → Bool) (rows : List Policy) → All (λ (r : Policy). q r ≡ true → q r ≡ true) rows
kept q [] = tt
kept q (r ∷ rows) = (λ e. e, kept q rows)

module _ {Blob : Type 0} where
  -- Which policy `get_active_policy` gives: if it gives one, that is an active policy of the store for
  -- the scope and the region, in that it satisfies whatever all of these satisfy, and no other of them
  -- has a greater version; if it gives none, the store has no such policy.
  pub get_active_policy_newest :
      (scope : String) (region : Option String) (s : NibStore Blob)
      → ((b : Policy)
          → get_active_policy scope region s ≡ some b
          → ((P : Policy → Type 0)
              → All (λ (r : Policy). is_applicable scope region r ≡ true → P r) s.policies
              → P b)
            × All
                (λ (r : Policy). is_applicable scope region r ≡ true → r.version ≤ b.version)
                s.policies)
        × (get_active_policy scope region s ≡ none
            → All (λ (r : Policy). is_applicable scope region r ≡ true → ⊥) s.policies)
  unfolding get_active_policy
  get_active_policy_newest scope region s =
      (given, λ e. unfilter-All q (λ r. ⊥) s.policies (empty _ e))
    where
      q : Policy → Bool
      q = is_applicable scope region

      bound :
          (rows : List Policy) (b : Policy)
          → newest none rows ≡ some b
          → All (λ (r : Policy). r.version ≤ b.version) rows
      bound [] b e = tt
      bound (r ∷ rows) b e = newest-ge r rows b e

      empty : (rows : List Policy) → newest none rows ≡ none → All (λ (r : Policy). ⊥) rows
      empty [] e = tt
      empty (r ∷ rows) e = absurd (newest-some r rows e)

      given :
          (b : Policy)
          → newest none (filter q s.policies) ≡ some b
          → ((P : Policy → Type 0) → All (λ (r : Policy). q r ≡ true → P r) s.policies → P b)
            × All (λ (r : Policy). q r ≡ true → r.version ≤ b.version) s.policies
      given b e = (
        λ P h. newest-All P none (filter q s.policies) b tt (filter-All q P s.policies h) e,
        unfilter-All q _ s.policies (bound (filter q s.policies) b e),
      )
