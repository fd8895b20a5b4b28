-- ===== src/RbTree/Find.antt =====
-- `yf_rbtree_find` against a search through all nodes.
use yifei.Prelude.{
  ℕ, zero, suc, ◌≤◌, ◌<◌, ◌≡◌, ◌≢◌, refl, sym, ap, ◌∙◌, arith, inl, inr, not, ◌||◌, List, [], ◌∷◌,
  ◌++◌, ◌==◌, ltb, if◌then◌else◌, Bool-cases, eq→==, ne→==, length, length-append, some, ltb→lt,
  ltb→ge, lt→ltb,
}
use yifei.LinkedList.{null}
use yifei.RbTree.{Nodes}
use yifei.RbTree.Shape.{Tree, leaf, node, flatten, IsTree}
use yifei.RbTree.Walk.{find, find_loop}

-- The first node with the key, or `NULL`.
abbrev pub first_with : (key : ℕ → ℕ) (k : ℕ) → List ℕ → ℕ
first_with key k [] = null
first_with key k (x ∷ xs) = if key x == k then x else first_with key k xs

-- The first node whose key is not below `k`, or `y`.
abbrev first_from : (key : ℕ → ℕ) (k : ℕ) → List ℕ → ℕ → ℕ
first_from key k [] y = y
first_from key k (x ∷ xs) y = if ltb (key x) k then first_from key k xs y else x

abbrev AllFrom : (key : ℕ → ℕ) (b : ℕ) → List ℕ → Type 0
AllFrom key b [] = Unit {0}
AllFrom key b (x ∷ xs) = (b ≤ key x) × AllFrom key b xs

-- The keys do not fall.
abbrev pub Climbs : (key : ℕ → ℕ) → List ℕ → Type 0
Climbs key [] = Unit {0}
Climbs key (x ∷ xs) = AllFrom key (key x) xs × Climbs key xs

abbrev pub AllReal : List ℕ → Type 0
AllReal [] = Unit {0}
AllReal (x ∷ xs) = (x ≢ null) × AllReal xs

module _ (key : ℕ → ℕ) (k : ℕ) where
  first_from-append :
      (xs ys : List ℕ) (y : ℕ)
      → first_from key k (xs ++ ys) y ≡ first_from key k xs (first_from key k ys y)
  first_from-append [] ys y = refl
  first_from-append (x ∷ xs) ys y =
      ap (λ v. if ltb (key x) k then v else x) (first_from-append xs ys y)

  AllFrom-here :
      (b : ℕ) (xs : List ℕ) (x : ℕ) (ys : List ℕ) → AllFrom key b (xs ++ x ∷ ys) → b ≤ key x
  AllFrom-here b [] x ys h = h.0
  AllFrom-here b (y ∷ xs) x ys h = AllFrom-here b xs x ys h.1

  -- Before a node with a smaller key all keys are smaller.
  first_from-skip :
      (xs : List ℕ) (x : ℕ) (ys : List ℕ) (y : ℕ)
      → Climbs key (xs ++ x ∷ ys)
      → key x < k
      → first_from key k xs y ≡ y
  first_from-skip [] x ys y h l = refl
  first_from-skip (z ∷ xs) x ys y h l =
      let le = AllFrom-here (key z) xs x ys h.0 in
      rw (lt→ltb (key z) k (omega arith)) (first_from-skip xs x ys y h.1 l)

  Climbs-left : (xs ys : List ℕ) → Climbs key (xs ++ ys) → Climbs key xs
  Climbs-left [] ys h = tt
  Climbs-left (x ∷ xs) ys h = (before xs h.0, Climbs-left xs ys h.1)
    where
      before : (zs : List ℕ) → AllFrom key (key x) (zs ++ ys) → AllFrom key (key x) zs
      before [] a = tt
      before (z ∷ zs) a = (a.0, before zs a.1)

  Climbs-right : (xs ys : List ℕ) → Climbs key (xs ++ ys) → Climbs key ys
  Climbs-right [] ys h = h
  Climbs-right (x ∷ xs) ys h = Climbs-right xs ys h.1

  none_above : (b : ℕ) (xs : List ℕ) → k < b → AllFrom key b xs → first_with key k xs ≡ null
  none_above b [] l h = refl
  none_above b (x ∷ xs) l h =
      rw (ne→== (key x) k (λ e. omega (arith, h.0, e))) (none_above b xs l h.1)

  -- The test behind the loop.
  checked :
      (xs : List ℕ)
      → Climbs key xs
      → AllReal xs
      → (if first_from key k xs null == null || ltb k (key (first_from key k xs null))
          then null
          else first_from key k xs null)
        ≡ first_with key k xs
  checked [] h a = refl
  checked (x ∷ xs) h a = elim (Bool-cases (ltb (key x) k)) [
    | inl l ↦
        let lt = ltb→lt (key x) k l in
        rw (l, ne→== (key x) k (λ e. omega (arith, e))) (checked xs h.1 a.1)
    | inr g ↦ elim (Bool-cases (ltb k (key x))) [
      | inl l ↦
          let lt = ltb→lt k (key x) l in
          rw (g, ne→== x null a.0, l, ne→== (key x) k (λ e. omega (arith, e)))
            (sym (none_above (key x) xs lt h.0))
      | inr m ↦
          let e : key x ≡ k = omega (arith, ltb→ge (key x) k g, ltb→ge k (key x) m) in
          rw (g, ne→== x null a.0, m, eq→== (key x) k e) refl
    ]
  ]

module _ (cmp : ℕ → ℕ → ℕ) (less : (a b : ℕ) → not (cmp a b == 0) ≡ ltb a b) (key rank : ℕ → ℕ)
    (nil k : ℕ) (s : Nodes) where
  find_loop-first_from :
      (t : Tree) (fuel lo hi p par y : ℕ)
      → IsTree rank nil s lo hi p par t
      → length (flatten t) < fuel
      → Climbs key (flatten t)
      → find_loop cmp key nil fuel k p y s ≡ some (first_from key k (flatten t) y)
  unfolding find_loop
  find_loop-first_from leaf zero lo hi p par y h f c = absurd (omega arith)
  find_loop-first_from leaf (suc fuel) lo hi p par y h f c = rw (eq→== p nil h) refl
  find_loop-first_from (node cx l x r) zero lo hi p par y h f c = absurd (omega arith)
  find_loop-first_from (node cx l x r) (suc fuel) lo hi p par y h f c =
      let e = h.0.0 in
      let n : p ≢ nil = λ d. h.0.1 (sym e ∙ d) in
      let sizes = length-append (flatten l) (x ∷ flatten r) in
      let test : not (cmp (key p) k == 0) ≡ ltb (key x) k =
        less (key p) k ∙ ap (λ q. ltb (key q) k) e in
      let split = first_from-append key k (flatten l) (x ∷ flatten r) y in
      elim (Bool-cases (ltb (key x) k)) [
        | inl b ↦
            rw (ne→== p nil n, test, b)
              (ap (λ q. find_loop cmp key nil fuel k q y s) (ap s.rights e)
                ∙ find_loop-first_from r fuel (suc (rank x)) hi (s.rights x) x y h.2
                    (omega (arith, sizes)) (Climbs-right key k (flatten l) (x ∷ flatten r) c).1
                ∙ ap some (
                    sym (
                      split
                      ∙ first_from-skip key k (flatten l) x (flatten r) _ c (ltb→lt (key x) k b)
                      ∙ ap (λ u. if u then first_from key k (flatten r) y else x) b)))
        | inr b ↦
            rw (ne→== p nil n, test, b)
              (ap (λ q. find_loop cmp key nil fuel k q p s) (ap s.lefts e)
                ∙ ap (λ q. find_loop cmp key nil fuel k (s.lefts x) q s) e
                ∙ find_loop-first_from l fuel lo (rank x) (s.lefts x) x x h.1 (omega (arith, sizes))
                    (Climbs-left key k (flatten l) (x ∷ flatten r) c)
                ∙ ap some (
                    sym (
                      split
                      ∙ ap
                          (λ u.
                            first_from key k (flatten l)
                              (if u then first_from key k (flatten r) y else x))
                          b)))
      ]

-- When the nodes from the root on hold a tree whose keys do not fall and none of whose nodes is at
-- `NULL`, and `cmp` tells whether a key is below another, `yf_rbtree_find` gives what a search
-- through all nodes gives: the first node with the key, or `NULL` if there is none; a round of its
-- loop more than there are nodes is enough.
pub find-first_with :
    (cmp : ℕ → ℕ → ℕ) (key rank : ℕ → ℕ) (nil fuel k lo hi : ℕ) (s : Nodes) (t : Tree)
    → ((a b : ℕ) → not (cmp a b == 0) ≡ ltb a b)
    → IsTree rank nil s lo hi s.root null t
    → Climbs key (flatten t)
    → AllReal (flatten t)
    → length (flatten t) < fuel
    → find cmp key nil fuel k s ≡ some (first_with key k (flatten t))
unfolding find
find-first_with cmp key rank nil fuel k lo hi s t less h c a f =
    let y = first_from key k (flatten t) null in
    rw (find_loop-first_from cmp less key rank nil k s t fuel lo hi s.root null null h f c, find)
      (ap some (
        ap (λ u. if y == null || u then null else y) (less k (key y))
        ∙ checked key k (flatten t) c a))
