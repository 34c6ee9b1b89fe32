-- ===== src/Common/Maps.antt =====
-- A Go map with string keys: a list of entries, the first of a key counting.
use Prim.Native.String.{String}
use Prim.Native.Nat.{◌≤◌, ◌<◌}
use mathlib.Core.Path.{◌≡◌, refl}
use mathlib.Core.Logic.{◌≢◌, inl, inr}
use mathlib.Core.Option.{Option, none, some}
use mathlib.Core.List.{List, [], ◌∷◌, ◌++◌}
use native.Mathlib.Omega.{arith}
use kai_server.Common.Lists.{length, All}
use kai_server.Common.Tests.{str_eq, str_eq_iff, str_eq_self, if◌then◌else◌, Bool-cases}

module _ {ℓ} {V : Type ℓ} where
  -- m[key]
  unfoldable pub lookup : String → List (String × V) → Option V
  lookup k [] = none
  lookup k ((j, v) ∷ m) = if str_eq j k then some v else lookup k m

  -- m[key] = v
  unfoldable pub put : String → V → List (String × V) → List (String × V)
  put k v [] = (k, v) ∷ []
  put k v ((j, w) ∷ m) = if str_eq j k then (j, v) ∷ m else (j, w) ∷ put k v m

  -- delete(m, key)
  unfoldable pub delete : String → List (String × V) → List (String × V)
  delete k [] = []
  delete k ((j, v) ∷ m) = if str_eq j k then delete k m else (j, v) ∷ delete k m

  -- No key has two entries.
  abbrev pub Keyed : List (String × V) → Type ℓ
  Keyed [] = Unit {ℓ}
  Keyed ((k, v) ∷ m) = All (λ e. k ≢ e.0) m × Keyed m

module _ {ℓ} {V : Type ℓ} where
  pub lookup-delete_self : (k : String) (m : List (String × V)) → lookup k (delete k m) ≡ none
  unfolding lookup delete
  lookup-delete_self k [] = refl
  lookup-delete_self k ((j, w) ∷ m) = ground (arith, lookup-delete_self k m)

  pub lookup-delete_ne :
      (k l : String) (m : List (String × V)) → k ≢ l → lookup l (delete k m) ≡ lookup l m
  unfolding lookup delete
  lookup-delete_ne k l [] h = refl
  lookup-delete_ne k l ((j, w) ∷ m) h =
      ground (arith, str_eq_iff j k, str_eq_iff j l, lookup-delete_ne k l m h)

  pub length-delete : (k : String) (m : List (String × V)) → length (delete k m) ≤ length m
  unfolding delete
  length-delete k [] = omega arith
  length-delete k ((j, w) ∷ m) = ground (arith, length-delete k m)

  -- To delete a key that is there makes the map smaller.
  pub length-delete_present :
      (k : String) (v : V) (m : List (String × V))
      → lookup k m ≡ some v
      → length (delete k m) < length m
  unfolding lookup delete
  length-delete_present k v [] h = absurd (cc)
  length-delete_present k v ((j, w) ∷ m) h =
      ground (arith, length-delete k m, length-delete_present k v m)

  pub lookup-put_self : (k : String) (v : V) (m : List (String × V)) → lookup k (put k v m) ≡ some v
  unfolding lookup put
  lookup-put_self k v [] = rw (str_eq_self k)
  lookup-put_self k v ((j, w) ∷ m) = elim (Bool-cases (str_eq j k)) [
    | inl e ↦ rw (e, e)
    | inr e ↦ rw (e, e) (lookup-put_self k v m)
  ]

  pub lookup-put_ne :
      (k l : String) (v : V) (m : List (String × V)) → k ≢ l → lookup l (put k v m) ≡ lookup l m
  unfolding lookup put
  lookup-put_ne k l v [] h = ground (arith, str_eq_iff k l)
  lookup-put_ne k l v ((j, w) ∷ m) h =
      ground (arith, str_eq_iff k l, str_eq_iff j k, str_eq_iff j l, lookup-put_ne k l v m h)

  pub put-fresh :
      (k : String) (v : V) (m : List (String × V))
      → lookup k m ≡ none
      → put k v m ≡ m ++ ((k, v) ∷ [])
  unfolding lookup put
  put-fresh k v [] h = refl
  put-fresh k v ((j, w) ∷ m) h = ground (arith, put-fresh k v m)

  pub lookup-append :
      (k : String) (m n : List (String × V)) → lookup k m ≡ none → lookup k (m ++ n) ≡ lookup k n
  unfolding lookup
  lookup-append k [] n h = refl
  lookup-append k ((j, w) ∷ m) n h = ground (arith, lookup-append k m n)

module _ {ℓ} {V : Type ℓ} (P : String → Type 0) where
  delete-All :
      (k : String) (m : List (String × V)) → All (λ e. P e.0) m → All (λ e. P e.0) (delete k m)
  unfolding delete
  delete-All k [] a = tt
  delete-All k ((j, v) ∷ m) (p, a) = elim (Bool-cases (str_eq j k)) [
    | inl e ↦ rw (e) (delete-All k m a)
    | inr e ↦ rw (e) (p, delete-All k m a)
  ]

  put-All :
      (k : String) (v : V) (m : List (String × V))
      → P k
      → All (λ e. P e.0) m
      → All (λ e. P e.0) (put k v m)
  unfolding put
  put-All k v [] q a = (q, tt)
  put-All k v ((j, w) ∷ m) q (p, a) = elim (Bool-cases (str_eq j k)) [
    | inl e ↦ rw (e) (p, a)
    | inr e ↦ rw (e) (p, put-All k v m q a)
  ]

module _ {ℓ} {V : Type ℓ} where
  pub delete-Keyed : (k : String) (m : List (String × V)) → Keyed m → Keyed (delete k m)
  unfolding delete
  delete-Keyed k [] d = tt
  delete-Keyed k ((j, v) ∷ m) (a, d) = elim (Bool-cases (str_eq j k)) [
    | inl e ↦ rw (e) (delete-Keyed k m d)
    | inr e ↦ rw (e) (delete-All (λ n. j ≢ n) k m a, delete-Keyed k m d)
  ]

  pub put-Keyed : (k : String) (v : V) (m : List (String × V)) → Keyed m → Keyed (put k v m)
  unfolding put
  put-Keyed k v [] d = (tt, tt)
  put-Keyed k v ((j, w) ∷ m) (a, d) = elim (Bool-cases (str_eq j k)) [
    | inl e ↦ rw (e) (a, d)
    | inr e ↦ rw (e) (
      put-All (λ n. j ≢ n) k v m (λ t. absurd (let u = (str_eq_iff j k).1 t in cc)) a,
      put-Keyed k v m d,
    )
  ]

  lookup-All_skip :
      (k : String) (v : V) (m n : List (String × V))
      → All (λ e. k ≢ e.0) n
      → All (λ e. lookup e.0 m ≡ some e.1) n
      → All (λ e. lookup e.0 ((k, v) ∷ m) ≡ some e.1) n
  unfolding lookup
  lookup-All_skip k v m [] a p = tt
  lookup-All_skip k v m (e ∷ n) (differ, a) (f, p) = (
    elim (Bool-cases (str_eq k e.0)) [
      | inl s ↦ absurd (differ ((str_eq_iff k e.0).0 s))
      | inr s ↦ rw (s) f
    ],
    lookup-All_skip k v m n a p,
  )

  -- Each entry is the one that a lookup of its key finds.
  pub lookup-All : (m : List (String × V)) → Keyed m → All (λ e. lookup e.0 m ≡ some e.1) m
  unfolding lookup
  lookup-All [] d = tt
  lookup-All ((k, v) ∷ m) (a, d) =
      (rw (str_eq_self k) refl, lookup-All_skip k v m m a (lookup-All m d))
