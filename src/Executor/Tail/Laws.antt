-- ===== src/Executor/Tail/Laws.antt =====
-- `BoundedTail` keeps the last bytes of all that was appended.
use qvac_atlas.Base.{
  ℕ, zero, suc, ◌+◌, ◌-◌, ◌≤◌, ◌≡◌, refl, sym, ap, ◌∙◌, List, [], ◌∷◌, ◌++◌, length, length-append,
  leb, ltb, arith, Bool-cases, inl, inr, leb→le,
}
use mathlib.Core.List.{append-nil, append_assoc}
use native.Mathlib.Nat.{zero-add, suc-add}
use qvac_atlas.Executor.Tail.{drop, last, append}

-- The loop of `data` events over one stream.
pub append_all : ℕ → List ℕ → List (List ℕ) → List ℕ
append_all limit buffer [] = buffer
append_all limit buffer (c ∷ cs) = append_all limit (append limit buffer c) cs

pub concat : List (List ℕ) → List ℕ
concat [] = []
concat (c ∷ cs) = c ++ concat cs

drop-append {ℓ} :
    {A : Type ℓ} (n : ℕ) (xs ys : List A) → n ≤ length xs → drop n (xs ++ ys) ≡ drop n xs ++ ys
drop-append zero xs ys h = refl
drop-append (suc n) [] ys h = absurd (omega arith)
drop-append (suc n) (x ∷ xs) ys h = drop-append n xs ys (omega arith)

drop-length-append {ℓ} :
    {A : Type ℓ} (n : ℕ) (xs ys : List A) → drop (length xs + n) (xs ++ ys) ≡ drop n ys
drop-length-append n [] ys = rw zero-add
drop-length-append n (x ∷ xs) ys = rw suc-add (drop-length-append n xs ys)

drop-nil {ℓ} : {A : Type ℓ} (n : ℕ) → drop {A = A} n [] ≡ []
drop-nil zero = refl
drop-nil (suc n) = refl

drop-drop {ℓ} : {A : Type ℓ} (m n : ℕ) (xs : List A) → drop m (drop n xs) ≡ drop (n + m) xs
drop-drop m zero xs = rw zero-add
drop-drop {A} m (suc n) [] = rw suc-add (drop-nil {A = A} m)
drop-drop m (suc n) (x ∷ xs) = rw suc-add (drop-drop m n xs)

length-drop {ℓ} : {A : Type ℓ} (n : ℕ) (xs : List A) → length (drop n xs) ≡ length xs - n
length-drop zero xs = omega arith
length-drop (suc n) [] = omega arith
length-drop (suc n) (x ∷ xs) = omega (arith, length-drop n xs)

pub length-last {ℓ} : {A : Type ℓ} (limit : ℕ) (xs : List A) → length (last limit xs) ≤ limit
length-last limit xs = omega (arith, length-drop (length xs - limit) xs)

-- Two tails of one list are the same where as many bytes are dropped.
drop_same {ℓ} : {A : Type ℓ} {m n : ℕ} (xs : List A) → m ≡ n → drop m xs ≡ drop n xs
drop_same xs e = ap (λ k. drop k xs) e

module _ (limit : ℕ) (xs c : List ℕ) where
  joined : last limit xs ++ c ≡ drop (length xs - limit) (xs ++ c)
  joined = sym (drop-append (length xs - limit) xs c (omega arith))

  length-joined : length (last limit xs ++ c) ≡ (length xs - (length xs - limit)) + length c
  length-joined = omega (arith, length-append (last limit xs) c, length-drop (length xs - limit) xs)

  last_of_long : limit ≤ length c → last limit c ≡ last limit (xs ++ c)
  last_of_long h =
      sym (drop-length-append (length c - limit) xs c)
      ∙ drop_same (xs ++ c) (omega (arith, length-append xs c))

  last_of_joined : last limit (last limit xs ++ c) ≡ last limit (xs ++ c)
  last_of_joined =
      ap (drop (length (last limit xs ++ c) - limit)) joined
      ∙ drop-drop (length (last limit xs ++ c) - limit) (length xs - limit) (xs ++ c)
      ∙ drop_same (xs ++ c) (omega (arith, length-joined, length-append xs c))

  joined_short : length (last limit xs ++ c) ≤ limit → last limit xs ++ c ≡ last limit (xs ++ c)
  joined_short h = joined ∙ drop_same (xs ++ c) (omega (arith, length-joined, length-append xs c))

  append-last : append limit (last limit xs) c ≡ last limit (xs ++ c)
  unfolding append
  append-last = elim (Bool-cases (leb limit (length c))) [
    | inl long ↦ rw long (last_of_long (leb→le _ _ long))
    | inr short ↦ rw short (elim (Bool-cases (ltb limit (length (last limit xs ++ c)))) [
      | inl over ↦ rw over last_of_joined
      | inr fits ↦ rw fits (joined_short (ground arith))
    ])
  ]

append_all-last :
    (limit : ℕ) (seen : List ℕ) (cs : List (List ℕ))
    → append_all limit (last limit seen) cs ≡ last limit (seen ++ concat cs)
unfolding append_all concat
append_all-last limit seen [] = rw append-nil
append_all-last limit seen (c ∷ cs) =
    ap (λ b. append_all limit b cs) (append-last limit seen c)
    ∙ append_all-last limit (seen ++ c) cs
    ∙ ap (last limit) (append_assoc seen c (concat cs))

-- Whatever the chunks, the buffer holds the last `limit` bytes of the whole stream, and so never
-- more than `limit` bytes.
pub append_all_lem :
    (limit : ℕ) (chunks : List (List ℕ))
    → (append_all limit [] chunks ≡ last limit (concat chunks))
      × (length (append_all limit [] chunks) ≤ limit)
append_all_lem limit chunks =
    let e : append_all limit [] chunks ≡ last limit (concat chunks) =
      rw (drop-nil (0 - limit)) at (append_all-last limit [] chunks) in
    (e, rw e (length-last limit (concat chunks)))
