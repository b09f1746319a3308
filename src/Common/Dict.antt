-- ===== src/Common/Dict.antt =====
-- Python's `dict`: pairs in insertion order. An update keeps its place, a new key goes to the end.
use Prim.Native.Nat.{ℕ, ◌+◌, ◌≤◌}
use mathlib.Core.Path.{◌≡◌, refl, sym, subst, subst₂}
use mathlib.Core.Logic.{◌≢◌, inl, inr}
use mathlib.Core.Bool.{Bool, true, false}
use mathlib.Core.Option.{Option, none, some}
use mathlib.Core.List.{List, [], ◌∷◌, ◌++◌}
use native.Mathlib.Omega.{arith}
use low_altitude_io_t_system.Common.Tests.{ltb, Bool-cases, if◌then◌else◌}
use low_altitude_io_t_system.Common.Lists.{length, length-append}
use low_altitude_io_t_system.Common.Equality.{Eq, ◌==◌}

abbrev pub Dict {ℓ κ} : Type ℓ → Type κ → Type (ℓ ⊔ κ)
Dict K V = List (K × V)

module _ {ℓ κ} {K : Type ℓ} {V : Type κ} ⦃e : Eq K⦄ where
  unfoldable pub get : K → Dict K V → Option V
  get k [] = none
  get k ((j, v) ∷ m) = if j == k then some v else get k m

  unfoldable pub put : K → V → Dict K V → Dict K V
  put k v [] = (k, v) ∷ []
  put k v ((j, w) ∷ m) = if j == k then (j, v) ∷ m else (j, w) ∷ put k v m

  unfoldable pub delete : K → Dict K V → Dict K V
  delete k [] = []
  delete k ((j, w) ∷ m) = let rest = delete k m in if j == k then rest else (j, w) ∷ rest

  -- `OrderedDict`: `d[k] = v` and then `d.move_to_end(k)`.
  unfoldable pub put_last : K → V → Dict K V → Dict K V
  unfolding delete
  put_last k v m = delete k m ++ ((k, v) ∷ [])

  pub get-put :
      (k j : K) (v : V) (m : Dict K V) → get j (put k v m) ≡ (if k == j then some v else get j m)
  unfolding get put
  get-put k j v [] = refl
  get-put k j v ((i, w) ∷ m) =
      ground (arith, e.beq_iff k j, e.beq_iff i k, e.beq_iff i j, get-put k j v m)

  pub get-delete :
      (k j : K) (m : Dict K V) → get j (delete k m) ≡ (if k == j then none else get j m)
  unfolding get delete
  get-delete k j [] = ground arith
  get-delete k j ((i, w) ∷ m) =
      ground (arith, e.beq_iff k j, e.beq_iff i k, e.beq_iff i j, get-delete k j m)

  get-append_last :
      (k j : K) (v : V) (m : Dict K V)
      → get k m ≡ none
      → get j (m ++ ((k, v) ∷ [])) ≡ (if k == j then some v else get j m)
  unfolding get
  get-append_last k j v [] h = refl
  get-append_last k j v ((i, w) ∷ m) h =
      ground (arith, e.beq_iff k j, e.beq_iff i k, e.beq_iff i j, get-append_last k j v m)

  pub get-put_last :
      (k j : K) (v : V) (m : Dict K V)
      → get j (put_last k v m) ≡ (if k == j then some v else get j m)
  unfolding put_last
  get-put_last k j v m =
      ground (
        arith,
        get-delete k k m,
        get-delete k j m,
        e.beq_iff k k,
        get-append_last k j v (delete k m),
      )

  pub length-put : (k : K) (v : V) (m : Dict K V) → length (put k v m) ≤ length m + 1
  unfolding put
  length-put k v [] = omega arith
  length-put k v ((i, w) ∷ m) = ground (arith, length-put k v m)

  pub length-put_old :
      (k : K) (v : V) (m : Dict K V) → get k m ≢ none → length (put k v m) ≡ length m
  unfolding get put
  length-put_old k v [] h = absurd (h refl)
  length-put_old k v ((i, w) ∷ m) h = ground (arith, length-put_old k v m)

  pub length-delete : (k : K) (m : Dict K V) → length (delete k m) ≤ length m
  unfolding delete
  length-delete k [] = omega arith
  length-delete k ((i, w) ∷ m) = ground (arith, length-delete k m)

  pub length-delete_old :
      (k : K) (m : Dict K V) → get k m ≢ none → length (delete k m) + 1 ≤ length m
  unfolding get delete
  length-delete_old k [] h = absurd (h refl)
  length-delete_old k ((i, w) ∷ m) h = ground (arith, length-delete k m, length-delete_old k m)

  pub length-put_last : (k : K) (v : V) (m : Dict K V) → length (put_last k v m) ≤ length m + 1
  unfolding put_last
  length-put_last k v m = omega (arith, length-append (delete k m) ((k, v) ∷ []), length-delete k m)

  pub length-put_last_old :
      (k : K) (v : V) (m : Dict K V) → get k m ≢ none → length (put_last k v m) ≤ length m
  unfolding put_last
  length-put_last_old k v m h =
      omega (arith, length-append (delete k m) ((k, v) ∷ []), length-delete_old k m h)

-- Every key stands once, as in any `dict`.
module _ {ℓ κ} {K : Type ℓ} {V : Type κ} ⦃e : Eq K⦄ where
  abbrev pub Unique : Dict K V → Type κ
  Unique [] = Unit
  Unique ((k, v) ∷ m) = (get k m ≡ none) × Unique m

  pub Unique-delete : (k : K) (m : Dict K V) → Unique m → Unique (delete k m)
  unfolding delete
  Unique-delete k [] u = tt
  Unique-delete k ((j, v) ∷ m) u =
      ground (arith, Unique-delete k m u.1, get-delete k j m, e.beq_iff k j)

  pub Unique-put : (k : K) (v : V) (m : Dict K V) → Unique m → Unique (put k v m)
  unfolding get put
  Unique-put k v [] u = (refl, tt)
  Unique-put k v ((j, w) ∷ m) u =
      ground (arith, Unique-put k v m u.1, get-put k j v m, e.beq_iff k j, e.beq_iff j k)

  Unique-append_last :
      (k : K) (v : V) (m : Dict K V) → get k m ≡ none → Unique m → Unique (m ++ ((k, v) ∷ []))
  unfolding get
  Unique-append_last k v [] h u = (refl, tt)
  Unique-append_last k v ((j, w) ∷ m) h u =
      ground
        (arith, Unique-append_last k v m, get-append_last k j v m, e.beq_iff k j, e.beq_iff j k)

  pub Unique-put_last : (k : K) (v : V) (m : Dict K V) → Unique m → Unique (put_last k v m)
  unfolding put_last
  Unique-put_last k v m u =
      Unique-append_last k v (delete k m) (rw (get-delete k k m, (e.beq_iff k k).1 refl))
        (Unique-delete k m u)

-- `while len(d) > limit: d.popitem(last=False)`
module _ {ℓ κ} {K : Type ℓ} {V : Type κ} where
  unfoldable pub evict : ℕ → Dict K V → Dict K V
  evict limit [] = []
  evict limit (s ∷ rest) =
      let fewer = evict limit rest in if ltb limit (length (s ∷ rest)) then fewer else s ∷ rest

  pub length-evict : (limit : ℕ) (d : Dict K V) → length (evict limit d) ≤ limit
  unfolding evict
  length-evict limit [] = omega arith
  length-evict limit (x ∷ d) = ground (arith, length-evict limit d)

  pub evict_few : (limit : ℕ) (d : Dict K V) → length d ≤ limit → evict limit d ≡ d
  unfolding evict
  evict_few limit [] h = refl
  evict_few limit (x ∷ d) h = ground arith

module _ {ℓ κ} {K : Type ℓ} {V : Type κ} ⦃e : Eq K⦄ where
  pub get-evict :
      (l : ℕ) (n : K) (d : Dict K V)
      → Unique d
      → get n (evict l d) ≢ none
      → get n (evict l d) ≡ get n d
  unfolding evict get
  get-evict l n [] u h = refl
  get-evict l n ((k, s) ∷ d) u h = ground (arith, get-evict l n d u.1, e.beq_iff k n)

  pub Unique-evict : (l : ℕ) (d : Dict K V) → Unique d → Unique (evict l d)
  unfolding evict
  Unique-evict l [] u = tt
  Unique-evict l ((k, s) ∷ d) u = ground (arith, Unique-evict l d u.1)

  pub put_new : (k : K) (v : V) (m : Dict K V) → get k m ≡ none → put k v m ≡ m ++ ((k, v) ∷ [])
  unfolding get put
  put_new k v [] h = refl
  put_new k v ((j, w) ∷ m) h = ground (arith, put_new k v m)

  -- A key that follows later in a dict stands nowhere before.
  pub get-Unique_append :
      (k : K) (v : V) (m rest : Dict K V) → Unique (m ++ ((k, v) ∷ rest)) → get k m ≡ none
  unfolding get
  get-Unique_append k v [] rest u = refl
  get-Unique_append k v ((j, w) ∷ m) rest (fresh, u) = elim (Bool-cases (j == k)) [
    | inr other ↦ rw other (get-Unique_append k v m rest u)
    | inl same ↦ absurd (get_middle_ne k j v m rest ((e.beq_iff j k).0 same) fresh)
  ]
    where
      get_middle_ne :
          (k j : K) (v : V) (m rest : Dict K V) → j ≡ k → get j (m ++ ((k, v) ∷ rest)) ≡ none → ⊥
      get_middle_ne k j v [] rest p h = ground (arith, e.beq_iff k j)
      get_middle_ne k j v ((i, w) ∷ m) rest p h = ground (arith, get_middle_ne k j v m rest p)

  -- `k in d`
  unfoldable pub has_key : K → Dict K V → Bool
  unfolding get
  has_key k m = elim (get k m) [ none ↦ false | some v ↦ true ]

  pub get-cons_same :
      (i j : K) (v : V) (m : Dict K V) → (i == j) ≡ true → get j ((i, v) ∷ m) ≡ some v
  unfolding get
  get-cons_same i j v m h = rw h

  pub get-cons_other :
      (i j : K) (v : V) (m : Dict K V) → (i == j) ≡ false → get j ((i, v) ∷ m) ≡ get j m
  unfolding get
  get-cons_other i j v m h = rw h

  -- A key that the rest of a dict has is not its first key.
  pub get-cons_new :
      (i j : K) (v : V) (m : Dict K V) → Unique ((i, v) ∷ m) → (i == j) ≡ true → get j m ≡ none
  get-cons_new i j v m u h = let p : i ≡ j = (e.beq_iff i j).0 h in rw p at u.0

-- A property of every entry, kept by the operations.
module _ {ℓ κ μ} {K : Type ℓ} {V : Type κ} ⦃e : Eq K⦄ (P : K → V → Type μ) where
  abbrev pub Each : Dict K V → Type μ
  Each [] = Unit
  Each ((k, v) ∷ m) = P k v × Each m

  pub Each-get : (k : K) (v : V) (m : Dict K V) → Each m → get k m ≡ some v → P k v
  unfolding get
  Each-get k v [] h q = absurd (cc)
  Each-get k v ((j, w) ∷ m) h q = elim (Bool-cases (j == k)) [
    | inl same ↦
        let p : j ≡ k = (e.beq_iff j k).0 same in
        let r : w ≡ v = cc (rw same at q) in subst₂ P p r h.0
    | inr other ↦ Each-get k v m h.1 (rw other at q)
  ]

  pub Each-put : (k : K) (v : V) (m : Dict K V) → P k v → Each m → Each (put k v m)
  unfolding put
  Each-put k v [] p h = (p, tt)
  Each-put k v ((j, w) ∷ m) p h = elim (Bool-cases (j == k)) [
    | inl same ↦
        let q : j ≡ k = (e.beq_iff j k).0 same in rw same (subst (λ (i : K). P i v) (sym q) p, h.1)
    | inr other ↦ rw other (h.0, Each-put k v m p h.1)
  ]

  pub Each-delete : (k : K) (m : Dict K V) → Each m → Each (delete k m)
  unfolding delete
  Each-delete k [] h = tt
  Each-delete k ((j, w) ∷ m) h = elim (Bool-cases (j == k)) [
    | inl same ↦ rw same (Each-delete k m h.1)
    | inr other ↦ rw other (h.0, Each-delete k m h.1)
  ]

module _ {ℓ κ} {K : Type ℓ} {V : Type κ} ⦃e : Eq K⦄ where
  -- A key that was there stays when another is put.
  pub has_key-put :
      (k j : K) (v : V) (m : Dict K V) → has_key j m ≡ true → has_key j (put k v m) ≡ true
  unfolding has_key
  has_key-put k j v m h = ground (arith, get-put k j v m)
