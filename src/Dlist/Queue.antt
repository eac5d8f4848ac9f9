-- ===== src/Dlist/Queue.antt =====
-- A list as a queue: nodes go in at the end and come out at the front.
use cn.Common.{ℕ, ◌≡◌, ◌≢◌, refl, sym, ◌∙◌, arith, false, some, List, [], ◌∷◌, ◌++◌, ◌==◌, update}
use cn.Dlist.{Heap, null, get, dlnode_insertprev, dlnode_remove, dlist_first, dlist_insertlast}
use cn.Dlist.Chain.{
  Fresh, last, IsList, last-Fresh, Chain-insert, Chain-append, Chain-remove, last-append,
  Fresh-append, Distinct-append,
}

-- The heap after `m` is put before the header `l`, whose `prev` is `p`.
unfoldable inserted : Heap → ℕ → ℕ → ℕ → Heap
inserted h l m p = record {
  prev = update (update h.prev m p) l m;
  next = update (update h.next p m) m l;
  owner = update h.owner m (h.owner l);
}

pub different : (a b : ℕ) → a ≢ b → (a == b) ≡ false
different a b h = ground (arith, h)

dlnode_insertprev-some :
    (h : Heap) (l m p : ℕ)
    → l ≢ null
    → m ≢ null
    → p ≢ null
    → m ≢ l
    → h.prev l ≡ p
    → dlnode_insertprev h l m ≡ some (inserted h l m p)
unfolding dlnode_insertprev inserted
dlnode_insertprev-some h l m p hl hm hp ml e =
    let l0 = different l null hl in
    let m0 = different m null hm in
    let p0 = different (h.prev l) null (λ z. hp (sym e ∙ z)) in
    let other = different m l ml in rw (sym e) (rw (l0, m0, other, p0) refl)

-- Putting a new node at the end gives the list with that node at the end.
pub dlist_insertlast-IsList :
    (h : Heap) (l m : ℕ) (xs : List ℕ)
    → IsList h l xs
    → m ≢ null
    → Fresh m (l ∷ xs)
    → (h' : Heap) × (dlist_insertlast h l m ≡ some h') × IsList h' l (xs ++ (m ∷ []))
unfolding dlist_insertlast inserted
dlist_insertlast-IsList h l m xs i hm f =
    let p = last l xs in
    let away = last-Fresh m l xs f in
    let chain' = Chain-insert h.prev h.next l l m p xs i.chain i.distinct f i.distinct.0 in
    (
      inserted h l m p,
      dlnode_insertprev-some h l m p (λ e. i.non_null.0 (sym e)) hm
          (λ e. last-Fresh null l xs i.non_null (sym e)) f.0 i.prev_header,
      record {
        non_null = Fresh-append null m (l ∷ xs) i.non_null (λ e. hm (sym e));
        distinct = Distinct-append m (l ∷ xs) i.distinct f;
        chain = Chain-append _ _ l m xs chain' (ground (arith, away)) (ground (arith, f.0));
        next_last = rw (last-append l m xs) (ground arith);
        prev_header = rw (last-append l m xs) (ground arith);
      },
    )

-- The heap after the node `x` between `l` and `b` is taken out.
unfoldable removed : Heap → ℕ → ℕ → ℕ → Heap
removed h l x b = record {
  prev = update (update h.prev b l) x null;
  next = update (update h.next l b) x null;
  owner = update h.owner x null;
}

dlnode_remove-some :
    (h : Heap) (l x b : ℕ)
    → l ≢ null
    → x ≢ null
    → b ≢ null
    → l ≢ x
    → h.prev x ≡ l
    → h.next x ≡ b
    → dlnode_remove h x ≡ some (removed h l x b)
unfolding dlnode_remove removed
dlnode_remove-some h l x b hl hx hb lx el eb =
    let l0 = different (h.prev x) null (λ z. hl (sym el ∙ z)) in
    let x0 = different x null hx in
    let b0 = different (h.next x) null (λ z. hb (sym eb ∙ z)) in
    let other = different (h.prev x) x (λ z. lx (sym el ∙ z)) in
    rw (sym el, sym eb) (rw (x0, l0, other, b0) refl)

removed-IsList :
    (h : Heap) (l x : ℕ) (xs : List ℕ)
    → IsList h l (x ∷ xs)
    → IsList (removed h l x (h.next x)) l xs
unfolding removed
removed-IsList h l x [] i = record {
  non_null = (i.non_null.0, tt);
  distinct = (tt, tt);
  chain = tt;
  next_last = ground (arith, i.next_last, i.distinct.0.0);
  prev_header = ground (arith, i.next_last, i.distinct.0.0);
}
removed-IsList h l x (y ∷ ys) i = record {
  non_null = (i.non_null.0, i.non_null.1.1);
  distinct = (i.distinct.0.1, i.distinct.1.1);
  chain = (
    ground (arith, i.chain.2.0, i.distinct.0.0),
    ground (arith, i.chain.2.0, i.distinct.1.0.0),
    Chain-remove h.prev h.next y (h.next x) l x ys i.chain.2.2 i.distinct.1.0 i.distinct.0.1
        (rw i.chain.2.0 i.distinct.1.1.0),
  );
  next_last =
      let lx = last-Fresh x y ys i.distinct.1.0 in
      let ll = last-Fresh l y ys i.distinct.0.1 in ground (arith, i.next_last, lx, ll);
  prev_header = ground (arith, i.chain.2.0, i.prev_header, i.distinct.0.0, i.distinct.0.1.0);
}

next-non_null : (h : Heap) (l x : ℕ) (xs : List ℕ) → IsList h l (x ∷ xs) → h.next x ≢ null
next-non_null h l x [] i e = i.non_null.0 (sym e ∙ i.next_last)
next-non_null h l x (y ∷ ys) i e = i.non_null.1.1.0 (sym e ∙ i.chain.2.0)

-- The front of a list that is not empty is its first node, and taking that out gives the rest.
pub dlist_first-dlnode_remove :
    (h : Heap) (l x : ℕ) (xs : List ℕ)
    → IsList h l (x ∷ xs)
    → (h' : Heap) × (dlist_first h l ≡ some x) × (dlnode_remove h x ≡ some h') × IsList h' l xs
unfolding dlist_first get
dlist_first-dlnode_remove h l x xs i = (
  removed h l x (h.next x),
  rw (different l null (λ e. i.non_null.0 (sym e)), i.chain.0) refl,
  dlnode_remove-some h l x (h.next x) (λ e. i.non_null.0 (sym e)) (λ e. i.non_null.1.0 (sym e))
      (next-non_null h l x xs i) (i.distinct.0.0) i.chain.1 refl,
  removed-IsList h l x xs i,
)
