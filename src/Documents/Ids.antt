-- ===== src/Documents/Ids.antt =====
-- Identifiers of documents, as the codes of their characters, and the last slash in one.
use mcma_libraries.Prelude.{
  ℕ, zero, suc, ◌≡◌, refl, sym, ap, subst, ◌∙◌, Bool, true, false, Option, none, some, List, [],
  ◌∷◌, ◌++◌, take, drop, eqb, Option-cases, inl, inr, arith,
}

abbrev pub Codes : Type 0
Codes = List ℕ

abbrev pub slash : ℕ
slash = b'/'

abbrev pub later_index : Bool → Option ℕ → Option ℕ
later_index here (some i) = some (suc i)
later_index true none = some 0
later_index false none = none

-- `lastIndexOf("/")`, and none for -1.
unfoldable pub last_slash_index : Codes → Option ℕ
last_slash_index [] = none
last_slash_index (c ∷ s) = later_index (eqb c slash) (last_slash_index s)

pub later_index-some : (here : Bool) (i : ℕ) → later_index here (some i) ≡ some (suc i)
later_index-some true i = refl
later_index-some false i = refl

-- The identifier around its last slash.
pub record Split (id : Codes) (i : ℕ) : Type 0 where
  pub parts : id ≡ take i id ++ (slash ∷ drop (suc i) id)
  pub last : last_slash_index (drop (suc i) id) ≡ none

here-Split :
    (c : ℕ) (s : Codes) (b : Bool) (i : ℕ)
    → eqb c slash ≡ b
    → last_slash_index s ≡ none
    → later_index b none ≡ some i
    → Split (c ∷ s) i
here-Split c s true zero e nothing f = record {
  parts = ap (λ d. d ∷ s) (ground arith);
  last = nothing;
}
here-Split c s true (suc i) e nothing f = cc
here-Split c s false i e nothing f = cc

later-Split :
    (c : ℕ) (s : Codes) (b : Bool) (i j : ℕ)
    → Split s i
    → later_index b (some i) ≡ some j
    → Split (c ∷ s) j
later-Split c s b i zero split f = cc (later_index-some b i, f)
later-Split c s b i (suc j) split f =
    let e : i ≡ j = cc (later_index-some b i, f) in
    subst (λ k. Split (c ∷ s) (suc k)) e
      (record { parts = ap (λ t. c ∷ t) split.parts; last = split.last })

pub last_slash_index-Split : (id : Codes) (i : ℕ) → last_slash_index id ≡ some i → Split id i
unfolding last_slash_index
last_slash_index-Split [] i e = cc
last_slash_index-Split (c ∷ s) i e = elim (Option-cases (last_slash_index s)) [
  | inl nothing ↦
      here-Split c s (eqb c slash) i refl nothing (ap (later_index (eqb c slash)) (sym nothing) ∙ e)
  | inr (j, there) ↦
      later-Split c s (eqb c slash) j i (last_slash_index-Split s j there)
        (ap (later_index (eqb c slash)) (sym there) ∙ e)
]

-- A text that begins with a slash has one.
pub last_slash_index-slash : (s : Codes) → (i : ℕ) × (last_slash_index (slash ∷ s) ≡ some i)
unfolding last_slash_index
last_slash_index-slash s = elim (Option-cases (last_slash_index s)) [
  | inl nothing ↦ (0, rw nothing refl)
  | inr (j, there) ↦ (suc j, rw there refl)
]

pub no_slash : (s t : Codes) → s ≡ slash ∷ t → last_slash_index s ≡ none → ⊥
no_slash s t e nothing = let (i, there) = last_slash_index-slash t in cc (e, nothing, there)
