-- ===== src/Json/Keys.antt =====
-- `exactKeys`, which four files define: the sorted keys of an object against an expected list.
use Prim.Native.Nat.{Ordering}
use Prim.Native.String
use mathlib.Core.Path.{subst}
use qvac_atlas.Base.{
  String, Bool, true, false, List, [], ◌∷◌, ◌=ₜ◌, ◌&&◌, ◌≡◌, All, and_true, Bool-cases, sym,
  text_eq-true, inl, inr, if◌then◌else◌,
}
use qvac_atlas.Json.{Fields, keys}

-- The order of `sort()`, by code points (the source's UTF-16 order on all but astral characters).
abbrev not_after : String → String → Bool
not_after s t = elim (String.compare s t) [ Ordering.gt ↦ false | _ ↦ true ]

abbrev insert : String → List String → List String
insert k [] = k ∷ []
insert k (j ∷ js) = if not_after k j then k ∷ j ∷ js else j ∷ insert k js

abbrev sort : List String → List String
sort [] = []
sort (k ∷ ks) = insert k (sort ks)

abbrev join_from : String → List String → String
join_from s [] = s
join_from s (k ∷ ks) = join_from (String.◌++◌ s (String.◌++◌ "\0" k)) ks

-- `.join("\0")`.
abbrev join : List String → String
join [] = ""
join (k ∷ ks) = join_from k ks

-- runner.ts and real-pipeline.ts: by joined text.
unfoldable pub exact_joined_keys : Fields → List String → Bool
exact_joined_keys fs expected = join (sort (keys fs)) =ₜ join (sort expected)

abbrev same_texts : List String → List String → Bool
same_texts [] [] = true
same_texts (s ∷ ss) (t ∷ ts) = s =ₜ t && same_texts ss ts
same_texts _ _ = false

-- protocol.ts of the executor: key by key.
unfoldable pub has_exact_keys : Fields → List String → Bool
has_exact_keys fs expected = same_texts (sort (keys fs)) (sort expected)

insert-All :
    (P : String → Type 0) (k : String) (js : List String) → All P (insert k js) → P k × All P js
insert-All P k [] h = h
insert-All P k (j ∷ js) h = elim (Bool-cases (not_after k j)) [
  | inl first ↦ rw first at h
  | inr later ↦
      let (pj, rest) : P j × All P (insert k js) = rw later at h in
      let (pk, pjs) = insert-All P k js rest in (pk, (pj, pjs))
]

sort-All : (P : String → Type 0) (ks : List String) → All P (sort ks) → All P ks
sort-All P [] h = tt
sort-All P (k ∷ ks) h = let (p, rest) = insert-All P k (sort ks) h in (p, sort-All P ks rest)

same_texts-All :
    (P : String → Type 0) (ss ts : List String) → same_texts ss ts ≡ true → All P ts → All P ss
same_texts-All P [] ts e h = tt
same_texts-All P (s ∷ ss) [] e h = cc
same_texts-All P (s ∷ ss) (t ∷ ts) e (p, h) =
    let (first, rest) = and_true _ _ e in
    (subst P (sym (text_eq-true s t first)) p, same_texts-All P ss ts rest h)

-- An object with exactly the expected keys has only these.
pub has_exact_keys-All :
    (P : String → Type 0) (fs : Fields) (expected : List String)
    → has_exact_keys fs expected ≡ true
    → All P (sort expected)
    → All P (keys fs)
unfolding has_exact_keys
has_exact_keys-All P fs expected e h = sort-All P (keys fs) (same_texts-All P _ (sort expected) e h)
