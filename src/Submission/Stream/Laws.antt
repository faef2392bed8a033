-- ===== src/Submission/Stream/Laws.antt =====
-- The reading loop gives the whole stream, or stops soon after its limit.
use qvac_atlas.Base.{
  ℕ, zero, suc, ◌+◌, ◌≤◌, ◌<◌, ◌≡◌, refl, sym, ap, ◌∙◌, Bool, true, false, Bool-cases, inl, inr,
  some, List, [], ◌∷◌, ◌++◌, map, length, length-append, take, All, leb, ltb, arith, if◌then◌else◌,
}
use qvac_atlas.Submission.Stream.{
  Bytes, Read, chunk, broken, Drained, whole, too_long, zeros, drop, set, copy_from, assemble,
  or_failed, drain_from, drain,
}

abbrev pub concat : List Bytes → Bytes
concat [] = []
concat (c ∷ cs) = c ++ concat cs

zero_add : (n : ℕ) → 0 + n ≡ n
zero_add n = omega arith

suc_add : (m n : ℕ) → suc m + n ≡ suc (m + n)
suc_add m n = omega arith

append_nil : (xs : Bytes) → xs ++ [] ≡ xs
append_nil [] = refl
append_nil (x ∷ xs) = ap (λ ys. x ∷ ys) (append_nil xs)

append_assoc : (xs ys zs : Bytes) → (xs ++ ys) ++ zs ≡ xs ++ (ys ++ zs)
append_assoc [] ys zs = refl
append_assoc (x ∷ xs) ys zs = ap (λ ws. x ∷ ws) (append_assoc xs ys zs)

take-append : (xs ys : Bytes) → take (length xs) (xs ++ ys) ≡ xs
take-append [] ys = refl
take-append (x ∷ xs) ys = ap (λ ws. x ∷ ws) (take-append xs ys)

drop-append : (xs : Bytes) (n : ℕ) (ys : Bytes) → drop (length xs + n) (xs ++ ys) ≡ drop n ys
drop-append [] n ys = ap (λ m. drop m ys) (zero_add n)
drop-append (x ∷ xs) n ys =
    ap (λ m. drop m (x ∷ (xs ++ ys))) (suc_add (length xs) n) ∙ drop-append xs n ys

drop-zeros : (n k : ℕ) → drop n (zeros (n + k)) ≡ zeros k
drop-zeros zero k = ap zeros (zero_add k)
drop-zeros (suc n) k = ap (λ m. drop (suc n) (zeros m)) (suc_add n k) ∙ drop-zeros n k

pub length-zeros : (n : ℕ) → length (zeros n) ≡ n
length-zeros zero = refl
length-zeros (suc n) = ap suc (length-zeros n)

leb-length :
    (p c : Bytes) (k : ℕ) → leb (length p + length c) (length (p ++ zeros (length c + k))) ≡ true
leb-length p c k =
    ground (arith, length-append p (zeros (length c + k)), length-zeros (length c + k))

-- A chunk copied behind what is filled leaves the rest free.
set-zeros :
    (p c : Bytes) (k : ℕ)
    → set (p ++ zeros (length c + k)) c (length p) ≡ some ((p ++ c) ++ zeros k)
set-zeros p c k =
    rw
      (
        leb-length p c k,
        take-append p (zeros (length c + k)),
        drop-append p (length c) (zeros (length c + k)),
        drop-zeros (length c) k,
      )
      refl

copy_from-concat :
    (p : Bytes) (cs : List Bytes)
    → copy_from (length p) cs (p ++ zeros (length (concat cs))) ≡ some (p ++ concat cs)
copy_from-concat p [] = refl
copy_from-concat p (c ∷ cs) =
    rw (length-append c (concat cs), set-zeros p c (length (concat cs)), sym (length-append p c))
      (copy_from-concat (p ++ c) cs ∙ ap some (append_assoc p c (concat cs)))

pub assemble-concat : (cs : List Bytes) → assemble cs (length (concat cs)) ≡ some (concat cs)
unfolding assemble
assemble-concat cs = copy_from-concat [] cs

concat-append : (cs : List Bytes) (c : Bytes) → concat (cs ++ (c ∷ [])) ≡ concat cs ++ c
concat-append [] c = append_nil c
concat-append (d ∷ cs) c =
    ap (λ bs. d ++ bs) (concat-append cs c) ∙ sym (append_assoc d (concat cs) c)

-- What the loop gives for a stream that ends.
abbrev pub within : ℕ → Bytes → Drained
within limit bytes = if ltb limit (length bytes) then too_long else whole bytes

pub within-whole :
    (limit : ℕ) (bytes : Bytes) → length bytes ≤ limit → within limit bytes ≡ whole bytes
within-whole limit bytes h = ground arith

pub within-over : (limit : ℕ) (bytes : Bytes) → limit < length bytes → within limit bytes ≡ too_long
within-over limit bytes h = ground arith

length-concat :
    (cs : List Bytes) (d : Bytes) → length (concat cs) + length d ≡ length (concat (cs ++ (d ∷ [])))
length-concat cs d = sym (ap length (concat-append cs d) ∙ length-append (concat cs) d)

regroup : (cs : List Bytes) (d bs : Bytes) → concat (cs ++ (d ∷ [])) ++ bs ≡ concat cs ++ (d ++ bs)
regroup cs d bs = ap (λ xs. xs ++ bs) (concat-append cs d) ∙ append_assoc (concat cs) d bs

too_many :
    (limit : ℕ) (cs : List Bytes) (d bs : Bytes)
    → ltb limit (length (concat cs) + length d) ≡ true
    → limit < length (concat cs ++ (d ++ bs))
too_many limit cs d bs e = ground (arith, length-append (concat cs) (d ++ bs), length-append d bs)

still_fits :
    (limit : ℕ) (cs : List Bytes) (d : Bytes)
    → ltb limit (length (concat cs) + length d) ≡ false
    → length (concat (cs ++ (d ∷ []))) ≤ limit
still_fits limit cs d e = ground (arith, length-concat cs d)

drain_from-within :
    (limit : ℕ) (cs ds : List Bytes)
    → length (concat cs) ≤ limit
    → drain_from limit cs (length (concat cs)) (map chunk ds)
      ≡ within limit (concat cs ++ concat ds)
unfolding drain_from
drain_from-within limit cs [] h =
    ap or_failed (assemble-concat cs)
    ∙ sym (within-whole limit (concat cs) h)
    ∙ ap (within limit) (sym (append_nil (concat cs)))
drain_from-within limit cs (d ∷ ds) h =
    elim (Bool-cases (ltb limit (length (concat cs) + length d))) [
      | inl e ↦ rw e (
          sym
            (within-over limit (concat cs ++ (d ++ concat ds)) (too_many limit cs d (concat ds) e)))
      | inr e ↦ rw e (
          ap (λ n. drain_from limit (cs ++ (d ∷ [])) n (map chunk ds)) (length-concat cs d)
          ∙ drain_from-within limit (cs ++ (d ∷ [])) ds (still_fits limit cs d e)
          ∙ ap (within limit) (regroup cs d (concat ds)))
    ]

-- A stream that ends is read as a whole, byte for byte, exactly if it is not longer than the limit,
-- however it is cut into chunks.
pub drain-concat :
    (limit : ℕ) (cs : List Bytes) → drain limit (map chunk cs) ≡ within limit (concat cs)
unfolding drain
drain-concat limit cs = drain_from-within limit [] cs (omega arith)

-- Chunks with at least one byte each.
abbrev pub AreFilled : List Bytes → Type 0
AreFilled = All (λ c. 0 < length c)

filled_up :
    (limit n : ℕ) (acc cs : List Bytes) (later : List Read)
    → AreFilled cs
    → limit < n + length cs
    → n ≤ limit
    → drain_from limit acc n (map chunk cs ++ later) ≡ too_long
unfolding drain_from
filled_up limit n acc [] later h l k = absurd (omega arith)
filled_up limit n acc (c ∷ cs) later (p, h) l k = elim (Bool-cases (ltb limit (n + length c))) [
  | inl e ↦ rw e refl
  | inr e ↦
      rw e
        (filled_up limit (n + length c) (acc ++ (c ∷ [])) cs later h (ground arith) (ground arith))
]

-- Whatever follows, the reading loop has stopped once it has read more non-empty chunks than its
-- limit has bytes.
pub drain-AreFilled :
    (limit : ℕ) (cs : List Bytes) (later : List Read)
    → AreFilled cs
    → limit < length cs
    → drain limit (map chunk cs ++ later) ≡ too_long
unfolding drain
drain-AreFilled limit cs later h l = filled_up limit 0 [] cs later h (omega arith) (omega arith)

whole_inj : (b c : Bytes) → whole b ≡ whole c → b ≡ c
whole_inj b c e = cc

not_over :
    (b : Bool) (x : Drained) (bytes : Bytes)
    → (if b then too_long else x) ≡ whole bytes
    → (b ≡ false) × (x ≡ whole bytes)
not_over true x bytes e = cc
not_over false x bytes e = (refl, e)

within-IsWhole : (limit : ℕ) (b c : Bytes) → within limit b ≡ whole c → (c ≡ b) × (length c ≤ limit)
within-IsWhole limit b c e =
    let (t, same) = not_over (ltb limit (length b)) (whole b) c e in
    (sym (whole_inj b c same), rw (sym (whole_inj b c same)) (ground arith))

all_chunks :
    (limit n : ℕ) (acc : List Bytes) (reads : List Read) (bytes : Bytes)
    → drain_from limit acc n reads ≡ whole bytes
    → (cs : List Bytes) × (reads ≡ map chunk cs)
unfolding drain_from
all_chunks limit n acc [] bytes e = ([], refl)
all_chunks limit n acc (broken ∷ reads) bytes e = cc
all_chunks limit n acc (chunk c ∷ reads) bytes e =
    let (t, d) =
      not_over (ltb limit (n + length c)) (drain_from limit (acc ++ (c ∷ [])) (n + length c) reads)
        bytes e in
    let (cs, h) = all_chunks limit (n + length c) (acc ++ (c ∷ [])) reads bytes d in
    (c ∷ cs, ap (λ rs. chunk c ∷ rs) h)

-- What a reading that succeeds was given.
abbrev pub IsWhole : ℕ → List Read → Bytes → Type 0
IsWhole limit reads bytes =
    (cs : List Bytes) × (reads ≡ map chunk cs) × (bytes ≡ concat cs) × (length bytes ≤ limit)

pub drain-IsWhole :
    (limit : ℕ) (reads : List Read) (bytes : Bytes)
    → drain limit reads ≡ whole bytes
    → IsWhole limit reads bytes
unfolding drain
drain-IsWhole limit reads bytes e =
    let (cs, h) = all_chunks limit 0 [] reads bytes e in
    let (same, bound) =
      within-IsWhole limit (concat cs) bytes
        (sym (drain-concat limit cs) ∙ ap (drain limit) (sym h) ∙ e) in
    (cs, h, same, bound)
