-- ===== src/Stream.antt =====
-- `hls::stream`, the FIFO of the HLS dialect: a queue of words with a depth.
use nica.Base.{
  ℕ, Bool, true, false, if◌then◌else◌, List, [], ◌∷◌, ◌++◌, Option, none, some, length, is_nil, leb,
  ◌≡◌, refl, sym, ap, ◌∙◌,
}
use mathlib.Core.List.{append_assoc}

pub record Stream {ℓ} (A : Type ℓ) : Type ℓ where
  pub items : List A
  pub depth : ℕ

module _ {ℓ} {A : Type ℓ} where
  abbrev pub empty : Stream A → Bool
  empty s = is_nil s.items

  abbrev pub full : Stream A → Bool
  full s = leb s.depth (length s.items)

  read_from : List A → ℕ → Option (A × Stream A)
  read_from [] d = none
  read_from (x ∷ xs) d = some (x, record { items = xs; depth = d })

  -- `read` and `read_nb`: `none` is an empty stream.
  unfoldable pub read : Stream A → Option (A × Stream A)
  unfolding read_from
  read s = read_from s.items s.depth

  -- A write to a full stream waits in hardware; the callers that must not wait test `full` first.
  abbrev pub write : Stream A → A → Stream A
  write s x = record s { items = s.items ++ x ∷ [] }

  read_from-some :
      (l : List A) (d : ℕ) {x : A} {t : Stream A}
      → read_from l d ≡ some (x, t)
      → (l ≡ x ∷ t.items) × (t.depth ≡ d)
  unfolding read_from
  read_from-some [] d e = absurd (none_ne e)
    where
      none_ne : {p : A × Stream A} → none ≡ some p → ⊥
      none_ne e = cc
  read_from-some (y ∷ l) d e = (cc, cc)

  -- What a read takes, and what it leaves.
  pub read-some :
      (s : Stream A) {x : A} {t : Stream A}
      → read s ≡ some (x, t)
      → (s.items ≡ x ∷ t.items) × (t.depth ≡ s.depth)
  unfolding read
  read-some s e = read_from-some s.items s.depth e

  read_from-none : (l : List A) (d : ℕ) → read_from l d ≡ none → l ≡ []
  unfolding read_from
  read_from-none [] d e = refl
  read_from-none (x ∷ l) d e = cc

  pub read-none : (s : Stream A) → read s ≡ none → s.items ≡ []
  unfolding read
  read-none s e = read_from-none s.items s.depth e

  -- Moving one word from the input to the output keeps output and input together the same.
  pub read-write :
      (s out : Stream A) {x : A} {t : Stream A}
      → read s ≡ some (x, t)
      → (write out x).items ++ t.items ≡ out.items ++ s.items
  read-write s out {x} {t} e =
      append_assoc out.items (x ∷ []) t.items
      ∙ ap (λ (l : List A). out.items ++ l) (sym (read-some s e).0)

  -- A write under a test adds the word or nothing.
  pub items-write_if :
      (p : Bool) (out : Stream A) (x : A) (rest : List A)
      → (if p then write out x else out).items ++ rest
        ≡ out.items ++ ((if p then x ∷ [] else []) ++ rest)
  items-write_if true out x rest = append_assoc out.items (x ∷ []) rest
  items-write_if false out x rest = refl

  -- What is written to an empty stream is what is read next.
  pub read-write_empty :
      (s : Stream A) (x : A) → s.items ≡ [] → read (write s x) ≡ some (x, record s { items = [] })
  unfolding read read_from
  read-write_empty s x e = rw e
