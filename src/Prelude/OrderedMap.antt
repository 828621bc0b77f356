-- ===== src/Prelude/OrderedMap.antt =====
-- JavaScript's `Map`: the entries in insertion order. `set` of a key that is there keeps its place.
use Prim.Native.Nat.{suc, ◌≤◌}
use mathlib.Core.Path.{◌≡◌, refl, sym, subst, ◌∙◌}
use mathlib.Core.Bool.{Bool}
use mathlib.Core.Logic.{◌≢◌, ite, if_pos, if_neg, inl, inr, ◌⊎◌}
use mathlib.Core.List.{List, [], ◌∷◌}
use mathlib.Core.Option.{Option, none, some}
use native.Mathlib.Omega.{arith}
use uurc_web_new.Prelude.Lists.{length, select}
use uurc_web_new.Prelude.Tests.{if◌then◌else◌, Bool-cases}

module _ {K V : Type 0} (dec : Discrete K) where
  unfoldable pub get : K → List (K × V) → Option V
  get k [] = none
  get k ((j, v) ∷ m) = ite (dec j k) (some v) (get k m)

  unfoldable pub set : K → V → List (K × V) → List (K × V)
  set k v [] = (k, v) ∷ []
  set k v ((j, w) ∷ m) = ite (dec j k) ((j, v) ∷ m) ((j, w) ∷ set k v m)

  unfoldable pub delete : K → List (K × V) → List (K × V)
  delete k [] = []
  delete k ((j, w) ∷ m) = ite (dec j k) m ((j, w) ∷ delete k m)

  -- No entry has the key.
  abbrev pub Absent : K → List (K × V) → Type 0
  Absent k [] = Unit
  Absent k ((j, w) ∷ m) = (j ≢ k) × Absent k m

  abbrev pub Distinct : List (K × V) → Type 0
  Distinct [] = Unit
  Distinct ((j, w) ∷ m) = Absent j m × Distinct m

  pub get-set :
      (k j : K) (v : V) (m : List (K × V)) → get j (set k v m) ≡ ite (dec k j) (some v) (get j m)
  unfolding get set
  get-set k j v [] = refl
  get-set k j v ((i, w) ∷ m) = ground (arith, get-set k j v m)

  pub get-set_self : (k : K) (v : V) (m : List (K × V)) → get k (set k v m) ≡ some v
  unfolding get set
  get-set_self k v [] = ground arith
  get-set_self k v ((i, w) ∷ m) = ground (arith, get-set_self k v m)

  pub get-set_ne : (k j : K) (v : V) (m : List (K × V)) → k ≢ j → get j (set k v m) ≡ get j m
  unfolding get set
  get-set_ne k j v [] h = ground arith
  get-set_ne k j v ((i, w) ∷ m) h = ground (arith, get-set_ne k j v m)

  pub get-of_Absent : (k : K) (m : List (K × V)) → Absent k m → get k m ≡ none
  unfolding get
  get-of_Absent k [] h = refl
  get-of_Absent k ((i, w) ∷ m) h = ground (arith, get-of_Absent k m h.1)

  pub Absent-of_get : (k : K) (m : List (K × V)) → get k m ≡ none → Absent k m
  unfolding get
  Absent-of_get k [] h = tt
  Absent-of_get k ((i, w) ∷ m) h = (ground arith, Absent-of_get k m (ground arith))

  pub get-delete_self : (k : K) (m : List (K × V)) → Distinct m → get k (delete k m) ≡ none
  unfolding get delete
  get-delete_self k [] d = refl
  get-delete_self k ((i, w) ∷ m) d =
      ground (arith, get-delete_self k m d.1, get-of_Absent i m d.0, get-of_Absent k m)

  pub get-delete_ne : (k j : K) (m : List (K × V)) → k ≢ j → get j (delete k m) ≡ get j m
  unfolding get delete
  get-delete_ne k j [] h = refl
  get-delete_ne k j ((i, w) ∷ m) h = ground (arith, get-delete_ne k j m)

  pub Absent-set : (i k : K) (v : V) (m : List (K × V)) → k ≢ i → Absent i m → Absent i (set k v m)
  unfolding set
  Absent-set i k v [] h a = (h, tt)
  Absent-set i k v ((j, w) ∷ m) h a = elim (dec j k) [
    | yes p ↦ rw (if_pos (dec j k) p) a
    | no n ↦ rw (if_neg (dec j k) n) (a.0, Absent-set i k v m h a.1)
  ]

  pub Distinct-set : (k : K) (v : V) (m : List (K × V)) → Distinct m → Distinct (set k v m)
  unfolding set
  Distinct-set k v [] d = (tt, tt)
  Distinct-set k v ((j, w) ∷ m) d = elim (dec j k) [
    | yes p ↦ rw (if_pos (dec j k) p) d
    | no n ↦
        rw (if_neg (dec j k) n) (Absent-set j k v m (λ e. n (sym e)) d.0, Distinct-set k v m d.1)
  ]

  pub Absent-delete : (i k : K) (m : List (K × V)) → Absent i m → Absent i (delete k m)
  unfolding delete
  Absent-delete i k [] a = tt
  Absent-delete i k ((j, w) ∷ m) a = elim (dec j k) [
    | yes p ↦ rw (if_pos (dec j k) p) a.1
    | no n ↦ rw (if_neg (dec j k) n) (a.0, Absent-delete i k m a.1)
  ]

  pub Distinct-delete : (k : K) (m : List (K × V)) → Distinct m → Distinct (delete k m)
  unfolding delete
  Distinct-delete k [] d = tt
  Distinct-delete k ((j, w) ∷ m) d = elim (dec j k) [
    | yes p ↦ rw (if_pos (dec j k) p) d.1
    | no n ↦ rw (if_neg (dec j k) n) (Absent-delete j k m d.0, Distinct-delete k m d.1)
  ]

  pub length-set_new :
      (k : K) (v : V) (m : List (K × V)) → get k m ≡ none → length (set k v m) ≡ suc (length m)
  unfolding get set
  length-set_new k v [] h = refl
  length-set_new k v ((j, w) ∷ m) h = ground (arith, length-set_new k v m)

  pub length-set_old :
      (k : K) (v w : V) (m : List (K × V)) → get k m ≡ some w → length (set k v m) ≡ length m
  unfolding get set
  length-set_old k v w [] h = cc
  length-set_old k v w ((j, u) ∷ m) h = ground (arith, length-set_old k v w m)

  pub length-delete-le : (k : K) (m : List (K × V)) → length (delete k m) ≤ length m
  unfolding delete
  length-delete-le k [] = ground arith
  length-delete-le k ((j, u) ∷ m) = ground (arith, length-delete-le k m)

  -- `for (const [key, value] of map) if (p(value)) map.delete(key)`.
  pub Absent-select :
      (p : V → Bool) (i : K) (m : List (K × V)) → Absent i m → Absent i (select (λ e. p e.1) m)
  Absent-select p i [] a = tt
  Absent-select p i ((j, w) ∷ m) a = elim (Bool-cases (p w)) [
    | inl y ↦ rw y (a.0, Absent-select p i m a.1)
    | inr n ↦ rw n (Absent-select p i m a.1)
  ]

  pub Distinct-select :
      (p : V → Bool) (m : List (K × V)) → Distinct m → Distinct (select (λ e. p e.1) m)
  Distinct-select p [] d = tt
  Distinct-select p ((j, w) ∷ m) d = elim (Bool-cases (p w)) [
    | inl y ↦ rw y (Absent-select p j m d.0, Distinct-select p m d.1)
    | inr n ↦ rw n (Distinct-select p m d.1)
  ]

  pub get-select-none :
      (p : V → Bool) (k : K) (m : List (K × V))
      → get k m ≡ none
      → get k (select (λ e. p e.1) m) ≡ none
  get-select-none p k m h =
      get-of_Absent k (select (λ e. p e.1) m) (Absent-select p k m (Absent-of_get k m h))

  -- A lookup finds what is there and passes the test, when each key stands once.
  pub get-select :
      (p : V → Bool) (k : K) (v : V) (m : List (K × V))
      → Distinct m
      → get k m ≡ some v
      → get k (select (λ e. p e.1) m) ≡ (if p v then some v else none)
  unfolding get
  get-select p k v [] d h = ground arith
  get-select p k v ((j, w) ∷ m) d h = elim (dec j k) [
    | yes e ↦ ground (
      arith,
      get-select-none p k m (get-of_Absent k m (subst (λ i. Absent i m) e d.0)),
      get-of_Absent k m (subst (λ i. Absent i m) e d.0),
    )
    | no n ↦ ground (arith, get-select p k v m d.1)
  ]

  pub get-set_cases :
      (k j : K) (v w : V) (m : List (K × V))
      → get j (set k v m) ≡ some w
      → ((k ≡ j) × (w ≡ v)) ⊎ ((k ≢ j) × (get j m ≡ some w))
  get-set_cases k j v w m h = elim (dec k j) [
    | yes e ↦ inl (e, ground (arith, h, get-set k j v m))
    | no n ↦ inr (n, sym (get-set_ne k j v m n) ∙ h)
  ]

  pub get-delete_cases :
      (k j : K) (w : V) (m : List (K × V))
      → Distinct m
      → get j (delete k m) ≡ some w
      → (k ≢ j) × (get j m ≡ some w)
  get-delete_cases k j w m d h = elim (dec k j) [
    | yes e ↦ cc (h, get-delete_self k m d, e)
    | no n ↦ (n, sym (get-delete_ne k j m n) ∙ h)
  ]
