-- ===== src/Executor/Tail.antt =====
-- packages/qvac-executor/src/supervisor.ts: `BoundedTail`, the last bytes of a child's output.
pub mod Laws
use qvac_atlas.Base.{ℕ, ◌-◌, List, [], ◌++◌, length, leb, ltb, if◌then◌else◌}

abbrev pub drop {ℓ} : {A : Type ℓ} → ℕ → List A → List A
drop ℕ.zero xs = xs
drop (ℕ.suc n) List.[] = []
drop (ℕ.suc n) (List.◌∷◌ x xs) = drop n xs

-- `subarray(length - limit)`.
abbrev pub last {ℓ} : {A : Type ℓ} → ℕ → List A → List A
last limit bytes = drop (length bytes - limit) bytes

unfoldable pub append : ℕ → List ℕ → List ℕ → List ℕ
append limit buffer incoming =
    if leb limit (length incoming)
    then last limit incoming
    else if ltb limit (length (buffer ++ incoming))
    then last limit (buffer ++ incoming)
    else buffer ++ incoming

unfoldable pub clear : List ℕ → List ℕ
clear buffer = []
