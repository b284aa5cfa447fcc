-- ===== src/Common/Dict.antt =====
-- A Python dict as an association list in insertion order: a key that is set again keeps its place.
use mathlib.Core.Path.{◌≡◌, refl, ap, ◌∙◌}
use mathlib.Core.Bool.{Bool, true, false}
use mathlib.Core.Logic.{inl, inr}
use mathlib.Core.Option.{Option, none, some}
use mathlib.Core.List.{List, [], ◌∷◌}
use native.Mathlib.Omega.{arith}
use Prim.Native.Nat.{◌+◌}
use engineering_memory_agent.Common.Tests.{if◌then◌else◌, Bool-cases}
use engineering_memory_agent.Common.Lists.{length}
use engineering_memory_agent.Common.Eq.{Eq, ◌=?◌, =?_sound, =?_refl, =?_apart}

abbrev pub Dict {ℓ κ} : Type ℓ → Type κ → Type (ℓ ⊔ κ)
Dict K V = List (K × V)

module _ {ℓ κ} {K : Type ℓ} {V : Type κ} ⦃e : Eq K⦄ where
  unfoldable pub get : K → Dict K V → Option V
  get k [] = none
  get k ((j, v) ∷ d) = if j =? k then some v else get k d

  unfoldable pub put : K → V → Dict K V → Dict K V
  put k v [] = (k, v) ∷ []
  put k v ((j, w) ∷ d) = if j =? k then (j, v) ∷ d else (j, w) ∷ put k v d

  -- `d | other`: the right side wins.
  unfoldable pub union : Dict K V → Dict K V → Dict K V
  union d [] = d
  union d ((k, v) ∷ other) = union (put k v d) other

if_same {ℓ} :
    {A : Type ℓ} (b : Bool) (x y z : A)
    → (if b then x else z) ≡ (if b then x else if b then y else z)
if_same true x y z = refl
if_same false x y z = refl

if_swap {ℓ} :
    {A : Type ℓ} (b c : Bool) (x y z : A)
    → (b ≡ true → c ≡ false)
    → (if b then x else if c then y else z) ≡ (if c then y else if b then x else z)
if_swap true true x y z h = cc (h refl)
if_swap true false x y z h = refl
if_swap false c x y z h = refl

module _ {ℓ κ} {K : Type ℓ} {V : Type κ} ⦃e : Eq K⦄ where
  pub get-put :
      (k j : K) (v : V) (d : Dict K V) → get j (put k v d) ≡ (if k =? j then some v else get j d)
  unfolding get put
  get-put k j v [] = refl
  get-put k j v ((i, w) ∷ d) = elim (Bool-cases (i =? k)) [
    | inl h ↦
        rw (h, ← ap (λ x. x =? j) (=?_sound i k h)) (if_same (i =? j) (some v) (some w) (get j d))
    | inr h ↦
        rw (h, get-put k j v d)
          (if_swap (i =? j) (k =? j) (some w) (some v) (get j d) (=?_apart i k j h))
  ]

  pub get-put_self : (k : K) (v : V) (d : Dict K V) → get k (put k v d) ≡ some v
  get-put_self k v d = rw (get-put, =?_refl k)

  -- A new key makes the dict longer by one, an old one does not.
  pub length-put :
      (k : K) (v : V) (d : Dict K V)
      → length (put k v d) ≡ elim (get k d) [ none ↦ length d + 1 | some _ ↦ length d ]
  unfolding get put
  length-put k v [] = omega arith
  length-put k v ((i, x) ∷ d) = elim (Bool-cases (i =? k)) [
    | inl h ↦ rw h
    | inr h ↦ rw h (ground (arith, length-put k v d))
  ]

  -- The right side of a union wins, and a key that it lacks keeps its value.
  pub get-union_lacks :
      (k : K) (d other : Dict K V) → get k other ≡ none → get k (union d other) ≡ get k d
  unfolding get union
  get-union_lacks k d [] h = refl
  get-union_lacks k d ((j, v) ∷ other) h = elim (Bool-cases (j =? k)) [
    | inl t ↦ cc (rw t at h)
    | inr f ↦ get-union_lacks k (put j v d) other (rw f at h) ∙ get-put j k v d ∙ rw f
  ]
