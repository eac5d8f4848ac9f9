-- ===== src/Interp/Split.antt =====
-- `strchrs` and `split` of sim.c. A pointer into a text is the text before it and the text from
-- it on. `split` writes a NUL where an argument ends, so that an argument is a text of its own.
pub mod Pieces
use cn.Common.{
  ℕ, zero, suc, Bool, true, false, not, ◌||◌, Option, none, some, List, [], ◌∷◌, length, ◌==◌,
  if◌then◌else◌, ◌>>=◌,
}
use cn.Text.{is_nil}

-- A character put in front of the text before a pointer.
abbrev pub behind : ℕ → Option (List ℕ × List ℕ) → Option (List ℕ × List ℕ)
behind c none = none
behind c (some (before, from)) = some (c ∷ before, from)

-- `strchr(str, c)`, where `c` is not the NUL.
unfoldable pub strchr : List ℕ → ℕ → Option (List ℕ × List ℕ)
strchr [] c = none
strchr (x ∷ str) c =
    let later = behind x (strchr str c) in if x == c then some ([], x ∷ str) else later

unfoldable pub strchrs : List ℕ → List ℕ → Bool → Option (List ℕ × List ℕ)
unfolding strchr
strchrs str [] endmatch = if endmatch then some (str, []) else none
strchrs str (c ∷ chars) endmatch = elim (strchr str c) [
  | some off ↦ some off
  | none ↦ strchrs str chars endmatch
]

-- What `split` gives: whether its result is 0, `args` up to `numargs`, and `lineout`.
pub record Parts : Type 0 where
  pub is_zero : Bool
  pub args : List (List ℕ)
  pub lineout : Option (List ℕ)

abbrev pub add_arg : List ℕ → Parts → Parts
add_arg arg parts = record parts { args = arg ∷ parts.args }

-- What a round of the loop does with the text before the separator; `next` is the rest of the
-- loop.
unfoldable pub store_arg : Bool → ℕ → List ℕ → List ℕ → (ℕ → Option Parts) → Option Parts
store_arg zerolen argslen cursor arg next =
    if not (is_nil arg) || zerolen
    then elim argslen [
      | zero ↦ some (
          if not (is_nil cursor) || zerolen
          then record { is_zero = false; args = []; lineout = some cursor }
          else record { is_zero = true; args = []; lineout = none })
      | suc left ↦ next left >>= (λ parts. some (add_arg arg parts))
    ]
    else next argslen

-- The loop of `split`; `none` is a null pointer, or too little fuel.
unfoldable pub split_loop : ℕ → List ℕ → Bool → ℕ → List ℕ → Option Parts
unfolding strchrs store_arg
split_loop zero seps zerolen argslen cursor = none
split_loop (suc fuel) seps zerolen argslen cursor = do
  (arg, end) ← strchrs cursor seps true
  store_arg zerolen argslen cursor arg λ left. elim end [
    | [] ↦ some (record { is_zero = true; args = []; lineout = none })
    | _ ∷ cursor' ↦ split_loop fuel seps zerolen left cursor'
  ]

-- `split`, with a text for `str`: each round but the last takes a separator off the text.
unfoldable pub split : List ℕ → List ℕ → Bool → ℕ → Option Parts
unfolding split_loop
split str seps zerolen argslen = split_loop (suc (length str)) seps zerolen argslen str
