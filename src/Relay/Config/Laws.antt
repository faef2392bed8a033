-- ===== src/Relay/Config/Laws.antt =====
-- The bounds of a configuration that the relay starts with.
use Prim.Native.String.{String}
use qvac_atlas.Base.{
  ℕ, ◌≤◌, ◌+◌, ◌≡◌, refl, ◌⊎◌, inl, inr, Bool, true, false, not, ◌&&◌, ◌||◌, Bool-cases, Option,
  none, some, length, all, any, leb, leb→le, arith, ◌==◌, ◌=ₜ◌, and_true, text_eq-true, codes,
  is_alphanumeric, Ensures, holds, Ensures-bind, Ensures-require, Ensures-raise, result-Ensures,
}
use qvac_atlas.Submission.Client.{Url, is_pinned}
use qvac_atlas.Relay.Config.{
  Outside, RelayConfig, is_name, repository_part, includes, is_branch, base_branch, relay_origin_of,
  max_safe_integer, in_range, integer, read_relay_config,
}

abbrev pub IsWithin : ℕ → ℕ → ℕ → Type 0
IsWithin low high n = (low ≤ n) × (n ≤ high)

-- A text of at most n characters that are letters, digits or listed.
abbrev pub IsShort : ℕ → String → String → Type 0
IsShort n extra s =
    (length (codes s) ≤ n)
    × (all (λ c. is_alphanumeric c || any (λ d. d == c) (codes extra)) (codes s) ≡ true)

abbrev pub IsBounded : Outside → RelayConfig → Type 0
IsBounded w r =
    ((u : Url) × (is_pinned u ≡ true) × (r.relay_origin ≡ u.origin))
    × ((r.listen_host ≡ "127.0.0.1") ⊎ (r.listen_host ≡ "0.0.0.0"))
    × IsWithin 1 65535 r.port
    × ((app : ℕ) × (r.github_app_id ≡ w.decimal app) × IsWithin 1 max_safe_integer app)
    × IsWithin 1 max_safe_integer r.github_installation_id
    × IsWithin 1 max_safe_integer r.queue_repository_id
    × (IsShort 100 "._-" r.queue_owner × IsShort 100 "._-" r.queue_repository)
    × (IsShort 200 "._/-" r.queue_base_branch
        × (includes (codes "..") (codes r.queue_base_branch) ≡ false))
    × IsWithin 1 100 r.queue_max_pending
    × IsWithin 1 32 r.max_concurrent_requests

in_range-IsWithin : (low high n : ℕ) → in_range low high n ≡ true → IsWithin low high n
in_range-IsWithin low high n e =
    let (both, b) = and_true (leb n max_safe_integer && leb low n) (leb n high) e in
    let (_, a) = and_true (leb n max_safe_integer) (leb low n) both in
    (leb→le low n a, leb→le n high b)

integer-IsWithin :
    (o : Option String) (fallback low high : ℕ) (name : String)
    → Ensures (IsWithin low high) (integer o fallback low high name)
unfolding integer
integer-IsWithin none fallback low high name =
    Ensures-require _ _ _ (λ e. holds (in_range-IsWithin low high _ e))
integer-IsWithin (some value) fallback low high name =
    Ensures-require _ _ _ (λ _. Ensures-require _ _ _ (λ e. holds (in_range-IsWithin low high _ e)))

is_name-IsShort :
    (n : ℕ) (extra s : String) → is_name n (codes extra) (codes s) ≡ true → IsShort (n + 2) extra s
unfolding is_name
is_name-IsShort n extra s e =
    let (more, chars) = and_true _ _ e in
    let (rest, _) = and_true _ _ more in
    let (fits, _) = and_true _ _ rest in (leb→le _ _ fits, chars)

repository_part-IsShort :
    (value name : String) → Ensures (IsShort 100 "._-") (repository_part value name)
unfolding repository_part
repository_part-IsShort value name =
    Ensures-require _ _ _ (λ e. holds (is_name-IsShort 98 "._-" value e))

excluded : (a b c d : Bool) → not (a || b || c || d) ≡ true → a ≡ false
excluded true b c d e = cc
excluded false b c d e = refl

base_branch-IsShort :
    (value : String)
    → Ensures
        (λ s. IsShort 200 "._/-" s × (includes (codes "..") (codes s) ≡ false))
        (base_branch value)
unfolding base_branch is_branch
base_branch-IsShort value = Ensures-require _ _ _ (λ e.
    let (name, clean) = and_true _ _ e in
    holds (is_name-IsShort 198 "._/-" value name, excluded _ _ _ _ clean))

relay_origin_of-Ensures :
    (w : Outside) (value : String)
    → Ensures (λ s. (u : Url) × (is_pinned u ≡ true) × (s ≡ u.origin)) (relay_origin_of w value)
unfolding relay_origin_of
relay_origin_of-Ensures w value =
    Ensures-raise _ _ _ (λ u _. Ensures-require _ _ _ (λ e. holds (u, e, refl)))

either_text : (s a b : String) → s =ₜ a || s =ₜ b ≡ true → (s ≡ a) ⊎ (s ≡ b)
either_text s a b e = elim (Bool-cases (s =ₜ a)) [
  | inl t ↦ inl (text_eq-true s a t)
  | inr t ↦ inr (text_eq-true s b (ground (arith)))
]

-- A configuration that is read has the origin of a bare https URL, one of two listening hosts, a
-- port, ids and limits within their ranges, names of at most 100 letters, digits, dots, dashes and
-- underscores, and a base branch of at most 200 such characters and slashes without two dots in a
-- row.
pub read_relay_config-IsBounded : (w : Outside) → Ensures (IsBounded w) (read_relay_config w)
unfolding read_relay_config
read_relay_config-IsBounded w = Ensures-require _ _ _ (λ _. Ensures-require _ _ _ (λ host.
    Ensures-bind (result-Ensures _) (λ _ _. Ensures-bind (relay_origin_of-Ensures w _) (λ _ origin.
      Ensures-bind (integer-IsWithin _ _ _ _ _) (λ _ port.
        Ensures-bind (integer-IsWithin _ _ _ _ _) (λ app app_id.
          Ensures-bind (integer-IsWithin _ _ _ _ _) (λ _ installation.
            Ensures-bind (result-Ensures _) (λ _ _. Ensures-bind (result-Ensures _) (λ _ _.
              Ensures-bind (result-Ensures _) (λ _ _.
                Ensures-bind (repository_part-IsShort _ _) (λ _ owner.
                  Ensures-bind (result-Ensures _) (λ _ _.
                    Ensures-bind (repository_part-IsShort _ _) (λ _ repository.
                      Ensures-bind (integer-IsWithin _ _ _ _ _) (λ _ id.
                        Ensures-bind (base_branch-IsShort _) (λ _ branch.
                          Ensures-bind (integer-IsWithin _ _ _ _ _) (λ _ pending.
                            Ensures-bind (integer-IsWithin _ _ _ _ _) (λ _ concurrent. holds (
                              origin,
                              either_text _ _ _ host,
                              port,
                              (app, refl, app_id),
                              installation,
                              id,
                              (owner, repository),
                              branch,
                              pending,
                              concurrent,
                            ))))))))))))))))))
