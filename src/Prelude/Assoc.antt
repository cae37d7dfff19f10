-- ===== src/Prelude/Assoc.antt =====
-- Maps as association lists, over keys with a Boolean equality.
use Prim.Native.Nat.{ℕ}
use mathlib.Core.Path.{◌≡◌, refl, ap, sym, ◌∙◌}
use mathlib.Core.Logic.{◌↔◌, inl, inr}
use mathlib.Core.Bool.{Bool, true, false}
use mathlib.Core.Option.{Option, none, some}
use mathlib.Core.List.{List, [], ◌∷◌}
use native.Mathlib.Omega.{arith}
use snet.Prelude.Tests.{◌==◌, ==_iff, if◌then◌else◌, Bool-cases}
use snet.Prelude.Lists.{bytes_eq, bytes_eq→eq, bytes_eq_refl}

pub record Key {ℓ} (K : Type ℓ) : Type ℓ where
  pub same : K → K → Bool
  pub same_iff : (a b : K) → (same a b ≡ true) ↔ (a ≡ b)

pub nat_same_iff : (a b : ℕ) → ((a == b) ≡ true) ↔ (a ≡ b)
nat_same_iff a b = ==_iff a b

pub bytes_same_iff : (a b : List ℕ) → (bytes_eq a b ≡ true) ↔ (a ≡ b)
bytes_same_iff a b = (bytes_eq→eq a b, λ e. ap (bytes_eq a) (sym e) ∙ bytes_eq_refl a)

instance abbrev pub nat_key : Key ℕ
nat_key = record { same = ◌==◌; same_iff = nat_same_iff }

instance abbrev pub bytes_key : Key (List ℕ)
bytes_key = record { same = bytes_eq; same_iff = bytes_same_iff }

-- Two keys that are equal give the same answer to every test.
same_trans {ℓ} :
    {K : Type ℓ} ⦃key : Key K⦄ (j k i : K) → key.same j k ≡ true → key.same j i ≡ key.same k i
same_trans ⦃key⦄ j k i h = ap (λ t. key.same t i) ((key.same_iff j k).0 h)

same_ends {ℓ} :
    {K : Type ℓ} ⦃key : Key K⦄ (j k i : K)
    → key.same j k ≡ false
    → key.same j i ≡ true
    → key.same k i ≡ false
same_ends ⦃key⦄ j k i e f = elim (Bool-cases (key.same k i)) [
  | inr g ↦ g
  | inl g ↦
      let q : j ≡ k = (key.same_iff j i).0 f ∙ sym ((key.same_iff k i).0 g) in
      let h = (key.same_iff j k).1 q in cc
]

module _ {ℓ κ} {K : Type ℓ} {V : Type κ} ⦃key : Key K⦄ where
  -- `find`
  abbrev pub lookup : K → List (K × V) → Option V
  lookup k [] = none
  lookup k ((j, v) ∷ m) = if key.same j k then some v else lookup k m

  -- `m[k] = v`
  abbrev pub insert : K → V → List (K × V) → List (K × V)
  insert k v [] = (k, v) ∷ []
  insert k v ((j, w) ∷ m) = if key.same j k then (j, v) ∷ m else (j, w) ∷ insert k v m

  -- `erase(k)`
  abbrev pub erase : K → List (K × V) → List (K × V)
  erase k [] = []
  erase k ((j, w) ∷ m) = if key.same j k then erase k m else (j, w) ∷ erase k m

  pub lookup-insert :
      (k i : K) (v : V) (m : List (K × V))
      → lookup i (insert k v m) ≡ (if key.same k i then some v else lookup i m)
  lookup-insert k i v [] = refl
  lookup-insert k i v ((j, w) ∷ m) = elim (Bool-cases (key.same j k)) [
    | inl e ↦ rw (e, same_trans j k i e) (twice (key.same k i))
    | inr e ↦ elim (Bool-cases (key.same j i)) [
      | inl f ↦ rw (e, f, same_ends j k i e f)
      | inr f ↦ rw (e, f) (lookup-insert k i v m)
    ]
  ]
    where
      twice :
          (b : Bool)
          → (if b then some v else lookup i m)
            ≡ (if b then some v else (if b then some w else lookup i m))
      twice true = refl
      twice false = refl

  pub lookup-erase :
      (k i : K) (m : List (K × V))
      → lookup i (erase k m) ≡ (if key.same k i then none else lookup i m)
  lookup-erase k i [] = ground arith
  lookup-erase k i ((j, w) ∷ m) = elim (Bool-cases (key.same j k)) [
    | inl e ↦ rw (e, same_trans j k i e, lookup-erase k i m) (twice (key.same k i))
    | inr e ↦ elim (Bool-cases (key.same j i)) [
      | inl f ↦ rw (e, f, same_ends j k i e f)
      | inr f ↦ rw (e, f) (lookup-erase k i m)
    ]
  ]
    where
      twice :
          (b : Bool)
          → (if b then none else lookup i m)
            ≡ (if b then none else (if b then some w else lookup i m))
      twice true = refl
      twice false = refl
