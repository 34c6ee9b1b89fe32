-- ===== src/Registry/Elements.antt =====
-- registry.go: the elements of the LRU list and the list of handles.
use mathlib.Core.Path.{subst, subst⁻¹, ap₂}
use kai_server.Common.{
  ℕ, zero, suc, ◌<◌, ◌≡◌, ◌≢◌, refl, sym, ap, ◌∙◌, arith, List, [], ◌∷◌, ◌++◌, Option, none, some,
  inl, inr, length, get_elem?, set, All, ◌==◌, ==_iff, if◌then◌else◌, String, Bool-cases,
  Option-cases,
}
use kai_server.Registry.State.{find, remove_element, move_to_front}

pub find-remove_element_self : (i : ℕ) (l : List (ℕ × String)) → find i (remove_element i l) ≡ none
unfolding find remove_element
find-remove_element_self i [] = refl
find-remove_element_self i ((j, k) ∷ l) = ground (arith, find-remove_element_self i l)

pub find-remove_element_ne :
    (i j : ℕ) (l : List (ℕ × String)) → i ≢ j → find j (remove_element i l) ≡ find j l
unfolding find remove_element
find-remove_element_ne i j [] h = refl
find-remove_element_ne i j ((j', k) ∷ l) h = ground (arith, find-remove_element_ne i j l h)

-- What is found after a removal was there before, and is another element.
pub find-remove_element :
    (i j : ℕ) (k : String) (l : List (ℕ × String))
    → find j (remove_element i l) ≡ some k
    → (i ≢ j) × (find j l ≡ some k)
find-remove_element i j k l h = elim (Bool-cases (i == j)) [
  | inl e ↦ absurd (
      let same = (==_iff i j).0 e in
      let gone : find j (remove_element i l) ≡ none =
        ap (λ n. find n (remove_element i l)) (sym same) ∙ find-remove_element_self i l in
      cc)
  | inr e ↦
      let differ : i ≢ j = λ s. absurd (let t = (==_iff i j).1 s in cc) in
      (differ, sym (find-remove_element_ne i j l differ) ∙ h)
]

move_to_front-cases :
    (i : ℕ) (l : List (ℕ × String)) (o : Option String)
    → find i l ≡ o
    → move_to_front i l ≡ elim o [ none ↦ l | some k ↦ (i, k) ∷ remove_element i l ]
unfolding move_to_front
move_to_front-cases i l o e =
    ap
      (λ o'. elim o' as (λ _. List (ℕ × String)) [
        | none ↦ l
        | some k ↦ (i, k) ∷ remove_element i l
      ])
      e

pub find-move_to_front : (i j : ℕ) (l : List (ℕ × String)) → find j (move_to_front i l) ≡ find j l
unfolding find
find-move_to_front i j l = elim (Option-cases (find i l)) [
  | inl e ↦ ap (find j) (move_to_front-cases i l none e)
  | inr (k, e) ↦ ap (find j) (move_to_front-cases i l (some k) e) ∙ elim (Bool-cases (i == j)) [
    | inl s ↦ rw (s) (sym e ∙ ap (λ n. find n l) ((==_iff i j).0 s))
    | inr s ↦ rw (s) (find-remove_element_ne i j l (λ t. absurd (let u = (==_iff i j).1 t in cc)))
  ]
]

-- No handle has two elements.
abbrev pub Distinct : List (ℕ × String) → Type 0
Distinct [] = Unit {0}
Distinct ((i, k) ∷ l) = All (λ e. i ≢ e.0) l × Distinct l

pub remove_element-All :
    (P : ℕ × String → Type 0) (l : List (ℕ × String)) (i : ℕ) → All P l → All P (remove_element i l)
unfolding remove_element
remove_element-All P [] i a = tt
remove_element-All P ((j, k) ∷ l) i (p, a) = elim (Bool-cases (j == i)) [
  | inl e ↦ rw (e) (remove_element-All P l i a)
  | inr e ↦ rw (e) (p, remove_element-All P l i a)
]

-- What is left after a removal is not the element removed.
pub remove_element-All_ne :
    (l : List (ℕ × String)) (i : ℕ) → All (λ e. i ≢ e.0) (remove_element i l)
unfolding remove_element
remove_element-All_ne [] i = tt
remove_element-All_ne ((j, k) ∷ l) i = elim (Bool-cases (j == i)) [
  | inl e ↦ rw (e) (remove_element-All_ne l i)
  | inr e ↦ rw (e) ((λ s. absurd (let t = (==_iff j i).1 (sym s) in cc)), remove_element-All_ne l i)
]

pub remove_element-Distinct :
    (l : List (ℕ × String)) (i : ℕ) → Distinct l → Distinct (remove_element i l)
unfolding remove_element
remove_element-Distinct [] i d = tt
remove_element-Distinct ((j, k) ∷ l) i (a, d) = elim (Bool-cases (j == i)) [
  | inl e ↦ rw (e) (remove_element-Distinct l i d)
  | inr e ↦ rw (e) (remove_element-All (λ e'. j ≢ e'.0) l i a, remove_element-Distinct l i d)
]

pub move_to_front-Distinct :
    (l : List (ℕ × String)) (i : ℕ) → Distinct l → Distinct (move_to_front i l)
move_to_front-Distinct l i d = elim (Option-cases (find i l)) [
  | inl e ↦ subst⁻¹ Distinct (move_to_front-cases i l none e) d
  | inr (k, e) ↦
      subst⁻¹ Distinct (move_to_front-cases i l (some k) e)
        (remove_element-All_ne l i, remove_element-Distinct l i d)
]

module _ {ℓ} {A : Type ℓ} where
  pub get_elem?-set_self :
      (xs : List A) (i : ℕ) (v w : A) → get_elem? xs i ≡ some w → get_elem? (set xs i v) i ≡ some v
  get_elem?-set_self [] i v w h = absurd (cc)
  get_elem?-set_self (x ∷ xs) zero v w h = refl
  get_elem?-set_self (x ∷ xs) (suc i) v w h = get_elem?-set_self xs i v w h

  pub get_elem?-set_ne :
      (xs : List A) (i j : ℕ) (v : A) → i ≢ j → get_elem? (set xs i v) j ≡ get_elem? xs j
  get_elem?-set_ne [] i j v h = refl
  get_elem?-set_ne (x ∷ xs) zero zero v h = absurd (h refl)
  get_elem?-set_ne (x ∷ xs) zero (suc j) v h = refl
  get_elem?-set_ne (x ∷ xs) (suc i) zero v h = refl
  get_elem?-set_ne (x ∷ xs) (suc i) (suc j) v h = get_elem?-set_ne xs i j v (λ e. h (ap suc e))

  pub get_elem?-append :
      (xs ys : List A) (i : ℕ) (v : A) → get_elem? xs i ≡ some v → get_elem? (xs ++ ys) i ≡ some v
  get_elem?-append [] ys i v h = absurd (cc)
  get_elem?-append (x ∷ xs) ys zero v h = h
  get_elem?-append (x ∷ xs) ys (suc i) v h = get_elem?-append xs ys i v h

  pub get_elem?-append_length :
      (xs : List A) (v : A) → get_elem? (xs ++ (v ∷ [])) (length xs) ≡ some v
  get_elem?-append_length [] v = refl
  get_elem?-append_length (x ∷ xs) v = get_elem?-append_length xs v

  pub get_elem?-lt : (xs : List A) (i : ℕ) (v : A) → get_elem? xs i ≡ some v → i < length xs
  get_elem?-lt [] i v h = absurd (cc)
  get_elem?-lt (x ∷ xs) zero v h = omega arith
  get_elem?-lt (x ∷ xs) (suc i) v h = omega (arith, get_elem?-lt xs i v h)

  pub get_elem?-some : (xs : List A) (i : ℕ) → i < length xs → (v : A) × (get_elem? xs i ≡ some v)
  get_elem?-some [] i h = elim h [ ]
  get_elem?-some (x ∷ xs) zero h = (x, refl)
  get_elem?-some (x ∷ xs) (suc i) h = get_elem?-some xs i (omega arith)

pub All-zip :
    (P Q R : ℕ × String → Type 0) (l : List (ℕ × String))
    → ((e : ℕ × String) → P e → Q e → R e)
    → All P l
    → All Q l
    → All R l
All-zip P Q R [] f p q = tt
All-zip P Q R (e ∷ l) f (p, ps) (q, qs) = (f e p q, All-zip P Q R l f ps qs)

-- Each element is the one found under its handle.
pub find-All : (l : List (ℕ × String)) → Distinct l → All (λ e. find e.0 l ≡ some e.1) l
unfolding find
find-All [] d = tt
find-All ((j, k) ∷ l) (a, d) = (
  rw ((==_iff j j).1 refl) refl,
  All-zip (λ e. j ≢ e.0) (λ e. find e.0 l ≡ some e.1)
      (λ e. (if j == e.0 then some k else find e.0 l) ≡ some e.1) l
      (λ e differ f. elim (Bool-cases (j == e.0)) [
        | inl s ↦ absurd (differ ((==_iff j e.0).0 s))
        | inr s ↦ rw (s) f
      ])
      a (find-All l d),
)

-- What holds of every element holds of one that is found.
pub All-find :
    (P : ℕ × String → Type 0) (l : List (ℕ × String)) (i : ℕ) (k : String)
    → All P l
    → find i l ≡ some k
    → P (i, k)
unfolding find
All-find P [] i k a f = absurd (cc)
All-find P ((j, k') ∷ l) i k (p, a) f = elim (Bool-cases (j == i)) [
  | inl s ↦
      let head_is : some k' ≡ some k = sym (rw (s) refl) ∙ f in
      let same : k' ≡ k = cc in subst P (ap₂ (λ m n. (m, n)) ((==_iff j i).0 s) same) p
  | inr s ↦ All-find P l i k a (sym (rw (s) refl) ∙ f)
]
