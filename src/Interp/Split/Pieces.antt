-- ===== src/Interp/Split/Pieces.antt =====
-- What `split` of sim.c takes a text apart into.
use cn.Common.{
  ℕ, zero, suc, ◌<◌, ◌≤◌, ◌≡◌, refl, ap, ◌∙◌, arith, Bool, true, false, not, ◌||◌, Option, none,
  some, List, [], ◌∷◌, ◌++◌, length, length-append, take, leb, ◌==◌, if◌then◌else◌, ◌>>=◌,
  Bool-cases, inl, inr, if_branches,
}
use cn.Text.{is_nil}
use cn.Text.Fields.{fields, fields-cons}
use cn.Interp.Split.{behind, strchr, strchrs, Parts, add_arg, store_arg, split_loop, split}

-- The last text is taken apart further.
unfoldable refine_last : (List ℕ → List (List ℕ)) → List (List ℕ) → List (List ℕ)
refine_last f [] = []
refine_last f (t ∷ []) = f t
refine_last f (t ∷ u ∷ ts) = t ∷ refine_last f (u ∷ ts)

-- The texts between the first of the separators, the last one taken apart by the other separators.
unfoldable pub pieces : List ℕ → List ℕ → List (List ℕ)
unfolding fields refine_last
pieces [] str = str ∷ []
pieces (c ∷ seps) str = refine_last (pieces seps) (fields c str)

-- The texts that are not empty, or all of them.
unfoldable pub keep : Bool → List (List ℕ) → List (List ℕ)
keep zerolen [] = []
keep zerolen (t ∷ ts) =
    let later = keep zerolen ts in if not (is_nil t) || zerolen then t ∷ later else later

-- What is found where a search ends: the text before it is the first piece.
abbrev CutBy : (List ℕ → List (List ℕ)) → List ℕ → List ℕ × List ℕ → Type 0
CutBy f str (before, []) = (f str ≡ before ∷ []) × (str ≡ before)
CutBy f str (before, x ∷ rest) = (f str ≡ before ∷ f rest) × (str ≡ before ++ x ∷ rest)

abbrev IsCut : ℕ → List ℕ → Option (List ℕ × List ℕ) → Type 0
IsCut c str none = fields c str ≡ str ∷ []
IsCut c str (some (before, [])) = ⊥
IsCut c str (some (before, x ∷ rest)) =
    (fields c str ≡ before ∷ fields c rest) × (str ≡ before ++ x ∷ rest)

later-IsCut :
    (c x : ℕ) (str : List ℕ) (o : Option (List ℕ × List ℕ))
    → (x == c) ≡ false
    → IsCut c str o
    → IsCut c (x ∷ str) (behind x o)
unfolding fields
later-IsCut c x str none e h = rw (e, h) refl
later-IsCut c x str (some (before, [])) e h = absurd h
later-IsCut c x str (some (before, y ∷ rest)) e (h, whole) = (rw (e, h) refl, ap (λ t. x ∷ t) whole)

strchr-IsCut : (str : List ℕ) (c : ℕ) → IsCut c str (strchr str c)
unfolding strchr fields
strchr-IsCut [] c = refl
strchr-IsCut (x ∷ str) c =
    if_branches (IsCut c (x ∷ str)) (x == c) _ _ (λ e. (rw e refl, refl))
      λ e. later-IsCut c x str (strchr str c) e (strchr-IsCut str c)

refine_first :
    (f : List ℕ → List (List ℕ)) (t : List ℕ) (c : ℕ) (str : List ℕ)
    → refine_last f (t ∷ fields c str) ≡ t ∷ refine_last f (fields c str)
unfolding refine_last
refine_first f t c str = let (u, ts, h) = fields-cons c str in rw h refl

-- A text without `c` has no `c` further on.
fields_tail :
    (c y : ℕ) (str : List ℕ) → fields c (y ∷ str) ≡ (y ∷ str) ∷ [] → fields c str ≡ str ∷ []
unfolding fields
fields_tail c y str h =
    let (t, ts, e) = fields-cons c str in
    elim (Bool-cases (y == c)) [ inl b ↦ cc (rw b at h) | inr b ↦ cc (rw (b, e) at h, e) ]

fields_suffix :
    (c x : ℕ) (before rest : List ℕ)
    → fields c (before ++ x ∷ rest) ≡ (before ++ x ∷ rest) ∷ []
    → fields c rest ≡ rest ∷ []
fields_suffix c x [] rest h = fields_tail c x rest h
fields_suffix c x (y ∷ before) rest h =
    fields_suffix c x before rest (fields_tail c y (before ++ x ∷ rest) h)

-- What a search gives that always ends somewhere.
abbrev pub Gives : {A : Type 0} → (A → Type 0) → Option A → Type 0
Gives P none = ⊥
Gives P (some a) = P a

Gives-some : {A : Type 0} (P : A → Type 0) (o : Option A) → Gives P o → (a : A) × (o ≡ some a) × P a
Gives-some P none h = absurd h
Gives-some P (some a) h = (a, refl, h)

module _ (c : ℕ) (seps str : List ℕ) where
  unfolding_pieces : (t : List ℕ) → fields c t ≡ t ∷ [] → pieces (c ∷ seps) t ≡ pieces seps t
  unfolding pieces refine_last
  unfolding_pieces t h = rw h refl

  fall_back :
      (o : List ℕ × List ℕ)
      → fields c str ≡ str ∷ []
      → CutBy (pieces seps) str o
      → CutBy (pieces (c ∷ seps)) str o
  fall_back (before, []) none_of (h, whole) = (unfolding_pieces str none_of ∙ h, whole)
  fall_back (before, x ∷ rest) none_of (h, whole) =
      let none_further = fields_suffix c x before rest (rw whole at none_of) in
      (rw (unfolding_pieces str none_of, unfolding_pieces rest none_further) h, whole)

  choose :
      (o : Option (List ℕ × List ℕ))
      → IsCut c str o
      → Gives (CutBy (pieces seps) str) (strchrs str seps true)
      → Gives
          (CutBy (pieces (c ∷ seps)) str)
          (elim o [ none ↦ strchrs str seps true | some off ↦ some off ])
  unfolding pieces
  choose none h later =
      let (off, e, found) = Gives-some _ (strchrs str seps true) later in
      rw e (fall_back off h found)
  choose (some (before, [])) h later = absurd h
  choose (some (before, x ∷ rest)) (h, whole) later =
      (rw h (refine_first (pieces seps) before c rest), whole)

strchrs-CutBy : (seps str : List ℕ) → Gives (CutBy (pieces seps) str) (strchrs str seps true)
unfolding strchrs pieces
strchrs-CutBy [] str = (refl, refl)
strchrs-CutBy (c ∷ seps) str =
    choose c seps str (strchr str c) (strchr-IsCut str c) (strchrs-CutBy seps str)

abbrev pub left_over : List ℕ → Bool → Option (List ℕ) → List (List ℕ)
left_over seps zerolen none = []
left_over seps zerolen (some text) = keep zerolen (pieces seps text)

-- The first `argslen` of the texts are the arguments; the others, if there are any, stay in
-- `lineout`, and the result is then not 0.
pub record IsSplit (seps : List ℕ) (zerolen : Bool) (argslen : ℕ) (texts : List (List ℕ))
    (parts : Parts) : Type 0 where
  pub is_zero : parts.is_zero ≡ leb (length texts) argslen
  pub args : parts.args ≡ take argslen texts
  pub all : parts.args ++ left_over seps zerolen parts.lineout ≡ texts

take_nil : (n : ℕ) → [] ≡ take {A = List ℕ} n []
take_nil zero = refl
take_nil (suc n) = refl

nil_front :
    (before : List ℕ) (x : ℕ) (rest : List ℕ)
    → is_nil (before ++ x ∷ rest) ≡ true
    → is_nil before ≡ true
nil_front [] x rest h = refl
nil_front (y ∷ before) x rest h = h

-- The same test decides the texts and the result.
if_both :
    (seps : List ℕ) (zerolen : Bool) (argslen : ℕ) (b : Bool) (xs ys : List (List ℕ))
    (o p : Option Parts)
    → (b ≡ true → Gives (IsSplit seps zerolen argslen xs) o)
    → (b ≡ false → Gives (IsSplit seps zerolen argslen ys) p)
    → Gives (IsSplit seps zerolen argslen (if b then xs else ys)) (if b then o else p)
if_both seps zerolen argslen true xs ys o p h k = h refl
if_both seps zerolen argslen false xs ys o p h k = k refl

module _ (seps : List ℕ) (zerolen : Bool) where
  abbrev Splits : ℕ → List (List ℕ) → Option Parts → Type 0
  Splits argslen texts = Gives (IsSplit seps zerolen argslen texts)

  add_arg-Splits :
      (left : ℕ) (arg : List ℕ) (texts : List (List ℕ)) (o : Option Parts)
      → Splits left texts o
      → Splits (suc left) (arg ∷ texts) (o >>= (λ parts. some (add_arg arg parts)))
  add_arg-Splits left arg texts (some parts) h = record {
    is_zero = ground (arith, h.is_zero);
    args = ap (λ ts. arg ∷ ts) h.args;
    all = ap (λ ts. arg ∷ ts) h.all;
  }
  add_arg-Splits left arg texts none h = absurd h

  store_arg-Splits :
      (argslen : ℕ) (cursor arg : List ℕ) (next : ℕ → Option Parts) (later : List (List ℕ))
      → pieces seps cursor ≡ arg ∷ later
      → (is_nil cursor ≡ true → is_nil arg ≡ true)
      → ((left : ℕ) → Splits left (keep zerolen later) (next left))
      → Splits argslen (keep zerolen (arg ∷ later)) (store_arg zerolen argslen cursor arg next)
  unfolding store_arg keep
  store_arg-Splits zero cursor arg next later e nil h =
      if_both seps zerolen zero (not (is_nil arg) || zerolen) _ _ _ _
        (λ kept.
          let stop : (not (is_nil cursor) || zerolen) ≡ true = ground (arith, kept, nil) in
          let all : keep zerolen (pieces seps cursor) ≡ arg ∷ keep zerolen later =
            rw (e, keep, kept) refl in
          rw stop (record { is_zero = ground arith; args = refl; all = all }))
        λ _. h zero
  store_arg-Splits (suc left) cursor arg next later e nil h =
      if_both seps zerolen (suc left) (not (is_nil arg) || zerolen) _ _ _ _
        (λ _. add_arg-Splits left arg (keep zerolen later) (next left) (h left)) λ _. h (suc left)

  no_more :
      (left : ℕ)
      → IsSplit seps zerolen left
          (keep zerolen [])
          (record { is_zero = true; args = []; lineout = none })
  unfolding keep
  no_more left = record { is_zero = ground arith; args = take_nil left; all = refl }

  from-Splits :
      (fuel argslen : ℕ) (cursor : List ℕ) (found : List ℕ × List ℕ)
      → length cursor ≤ fuel
      → CutBy (pieces seps) cursor found
      → ((left : ℕ) (rest : List ℕ)
          → length rest < fuel
          → Splits left (keep zerolen (pieces seps rest)) (split_loop fuel seps zerolen left rest))
      → Splits argslen (keep zerolen (pieces seps cursor)) (
          store_arg zerolen argslen cursor found.0 λ left. elim found.1 [
            | [] ↦ some (record { is_zero = true; args = []; lineout = none })
            | _ ∷ cursor' ↦ split_loop fuel seps zerolen left cursor'
          ])
  from-Splits fuel argslen cursor (before, []) enough (e, whole) later =
      rw e (store_arg-Splits argslen cursor before _ [] e (λ h. rw whole at h) no_more)
  from-Splits fuel argslen cursor (before, x ∷ rest) enough (e, whole) later =
      let shorter : length rest < fuel =
        omega (arith, ap length whole, length-append before (x ∷ rest)) in
      rw e (
        store_arg-Splits argslen cursor before _ (pieces seps rest) e
          (λ h. nil_front before x rest (rw whole at h)) λ left. later left rest shorter)

  split_loop-Splits :
      (fuel argslen : ℕ) (cursor : List ℕ)
      → length cursor < fuel
      → Splits argslen
          (keep zerolen (pieces seps cursor))
          (split_loop fuel seps zerolen argslen cursor)
  unfolding split_loop
  split_loop-Splits (suc fuel) argslen cursor enough =
      let (found, e, cut) = Gives-some _ (strchrs cursor seps true) (strchrs-CutBy seps cursor) in
      rw e (
        from-Splits fuel argslen cursor found (omega arith) cut
          λ left rest. split_loop-Splits fuel left rest)
  split_loop-Splits zero argslen cursor enough = elim enough [ ]

-- `split` comes to an end, and takes the text apart at the first of the separators, and only what
-- follows the last of these at the next separator, and so on. Without `zerolen` the empty texts
-- are left out. The first `argslen` texts are the arguments; if there are more, the result is -1
-- and `lineout` points to the others.
pub split-IsSplit :
    (str seps : List ℕ) (zerolen : Bool) (argslen : ℕ)
    → Gives
        (IsSplit seps zerolen argslen (keep zerolen (pieces seps str)))
        (split str seps zerolen argslen)
unfolding split
split-IsSplit str seps zerolen argslen =
    split_loop-Splits seps zerolen (suc (length str)) argslen str (omega arith)
