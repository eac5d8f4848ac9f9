-- ===== src/Dlist/Chain.antt =====
-- The list of nodes that a heap holds from a header on.
use cn.Common.{ℕ, ◌≡◌, ◌≢◌, refl, sym, arith, List, [], ◌∷◌, ◌++◌, update}
use cn.Dlist.{Heap, null}

-- `a` is none of the elements.
abbrev pub Fresh : ℕ → List ℕ → Type 0
Fresh a [] = Unit
Fresh a (x ∷ xs) = (a ≢ x) × Fresh a xs

abbrev pub Distinct : List ℕ → Type 0
Distinct [] = Unit
Distinct (x ∷ xs) = Fresh x xs × Distinct xs

-- The last of `a` and the elements after it.
abbrev pub last : ℕ → List ℕ → ℕ
last a [] = a
last a (x ∷ xs) = last x xs

-- Each node points to the one after it, and back.
abbrev pub Chain : (ℕ → ℕ) → (ℕ → ℕ) → ℕ → List ℕ → Type 0
Chain prev next a [] = Unit
Chain prev next a (x ∷ xs) = (next a ≡ x) × (prev x ≡ a) × Chain prev next x xs

-- The list with the header `l` has the nodes `xs`.
pub record IsList (h : Heap) (l : ℕ) (xs : List ℕ) : Type 0 where
  pub non_null : Fresh null (l ∷ xs)
  pub distinct : Distinct (l ∷ xs)
  pub chain : Chain h.prev h.next l xs
  pub next_last : h.next (last l xs) ≡ l
  pub prev_header : h.prev l ≡ last l xs

pub last-Fresh : (m a : ℕ) (xs : List ℕ) → Fresh m (a ∷ xs) → m ≢ last a xs
last-Fresh m a [] f = f.0
last-Fresh m a (x ∷ xs) f = last-Fresh m x xs f.1

-- Writes of `next` at the last node and at a new node, and of `prev` at the new node and at a
-- node outside of the chain.
pub Chain-insert :
    (prev next : ℕ → ℕ) (a b m p : ℕ) (xs : List ℕ)
    → Chain prev next a xs
    → Distinct (a ∷ xs)
    → Fresh m (a ∷ xs)
    → Fresh b xs
    → Chain (update (update prev m p) b m) (update (update next (last a xs) m) m b) a xs
Chain-insert prev next a b m p [] c d f g = tt
Chain-insert prev next a b m p (x ∷ xs) (e1, e2, c) ((ax, fa), d) (ma, (mx, f)) (bx, g) = (
  ground (arith, e1, ma, last-Fresh a x xs (ax, fa)),
  ground (arith, e2, bx, mx),
  Chain-insert prev next x b m p xs c d (mx, f) g,
)

pub Chain-append :
    (prev next : ℕ → ℕ) (a m : ℕ) (xs : List ℕ)
    → Chain prev next a xs
    → next (last a xs) ≡ m
    → prev m ≡ last a xs
    → Chain prev next a (xs ++ (m ∷ []))
Chain-append prev next a m [] c e1 e2 = (e1, e2, tt)
Chain-append prev next a m (x ∷ xs) (d1, d2, c) e1 e2 =
    (d1, d2, Chain-append prev next x m xs c e1 e2)

pub last-append : (a m : ℕ) (xs : List ℕ) → last a (xs ++ (m ∷ [])) ≡ m
last-append a m [] = refl
last-append a m (x ∷ xs) = last-append x m xs

pub Fresh-append : (a m : ℕ) (xs : List ℕ) → Fresh a xs → a ≢ m → Fresh a (xs ++ (m ∷ []))
Fresh-append a m [] f h = (h, tt)
Fresh-append a m (x ∷ xs) (ax, f) h = (ax, Fresh-append a m xs f h)

pub Distinct-append : (m : ℕ) (xs : List ℕ) → Distinct xs → Fresh m xs → Distinct (xs ++ (m ∷ []))
Distinct-append m [] d f = (tt, tt)
Distinct-append m (x ∷ xs) (fx, d) (mx, f) =
    (Fresh-append x m xs fx (λ e. mx (sym e)), Distinct-append m xs d f)

-- Writes at nodes outside of the chain, as far as `next` and `prev` are read.
pub Chain-remove :
    (prev next : ℕ → ℕ) (a b l x : ℕ) (xs : List ℕ)
    → Chain prev next a xs
    → Fresh x (a ∷ xs)
    → Fresh l (a ∷ xs)
    → Fresh b xs
    → Chain (update (update prev b l) x null) (update (update next l b) x null) a xs
Chain-remove prev next a b l x [] c fx fl fb = tt
Chain-remove prev next a b l x (y ∷ xs) (e1, e2, c) (xa, (xy, fx)) (la, fl) (yb, fb) = (
  ground (arith, e1, xa, la),
  ground (arith, e2, yb, xy),
  Chain-remove prev next y b l x xs c (xy, fx) fl fb,
)
