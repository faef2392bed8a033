-- ===== src/Relay/Credentials/Laws.antt =====
-- The tokens that callers get are fresh and scoped, and every caller is answered once.
use mathlib.Core.Path.{subst}
use mathlib.Core.List.{Memᴰ}
use mathlib.Core.List.Memᴰ.{head, tail}
use qvac_atlas.Base.{
  ℕ, suc, ◌+◌, ◌≤◌, ◌≡◌, refl, ap, ◌∙◌, ◌⊎◌, inl, inr, true, Option, none, some, List, [], ◌∷◌, map,
  ◌==◌, ltb, length, length-append, All, All-append, Result, ok, err, Ensures, holds, Ensures-raise,
  Ensures-require, if_split, arith, String, one_of, and_true, text_eq-true, Bool-cases,
  and_then-some,
}
use qvac_atlas.Json.{Value, str, obj, Fields, get, keys, record_of, is_text}
use qvac_atlas.Json.Keys.{has_exact_keys-All}
use qvac_atlas.Submission.Stream.{
  Bytes, Read, Drained, whole, too_long, failed, drain, declares_more,
}
use qvac_atlas.Submission.Stream.Laws.{IsWhole, drain-IsWhole}
use qvac_atlas.Submission.Client.{Response}
use qvac_atlas.Relay.Credentials.{
  Outside, Minted, max_token_response_bytes, parsed, body_json, bounded_json, text_of, is_token,
  is_scoped, shortest, longest, is_timely, token_of, mint, Given, State, Event, ask, settle, start,
  CredentialError, fresh, joined, give, asked, resumed, settled, step, steps,
}

-- The three permissions that the relay asks for, and no other key.
abbrev IsScoped : Fields → Type 0
IsScoped permissions =
    (get permissions "contents" ≡ str "write")
    × (get permissions "metadata" ≡ str "read")
    × (get permissions "pull_requests" ≡ str "write")
    × All (λ k. one_of ("contents" ∷ "metadata" ∷ "pull_requests" ∷ []) k ≡ true) (keys permissions)

-- The record that a body holds, of at most 16,384 bytes.
abbrev IsBody : Outside → Option (List Read) → Fields → Type 0
IsBody w body fs =
    (reads : List Read) × (bytes : Bytes) × (text : String) × (body ≡ some reads)
    × IsWhole max_token_response_bytes reads bytes
    × (w.decode bytes ≡ some text)
    × (w.parse text ≡ some (obj fs))

-- The answer to a mint of the log grants the token: it is created, for the selected repositories,
-- with the three permissions, and its text and its time are those that the body names, from five
-- minutes after the clock's first reading to sixty-five after the second.
abbrev pub IsGranted : Outside → List Event → Minted → ℕ → ℕ → Type 0
IsGranted w log m first second =
    (r : Response) × (fs permissions : Fields) × (date : String) × Memᴰ
      (settle (some r) first second) log
    × (r.status ≡ 201)
    × IsBody w r.body fs
    × (get fs "permissions" ≡ obj permissions)
    × IsScoped permissions
    × (get fs "repository_selection" ≡ str "selected")
    × (get fs "token" ≡ str m.token)
    × (is_token m.token ≡ true)
    × (get fs "expires_at" ≡ str date)
    × (w.parse_date date ≡ some m.expires_at)
    × (first + shortest ≤ m.expires_at)
    × (m.expires_at ≤ second + longest)

abbrev IsAsked : List Event → ℕ → Type 0
IsAsked log i = (now : ℕ) × Memᴰ (ask i now) log

-- A caller that asked, and a token with at least five minutes left, which GitHub has granted. The
-- time is that of the caller's question, or that at which the mint was answered.
abbrev pub IsGood : Outside → List Event → Given → Type 0
IsGood w log g =
    (g.time + shortest ≤ g.minted.expires_at)
    × IsAsked log g.caller
    × ((first second : ℕ) × IsGranted w log g.minted first second
        × (Memᴰ (ask g.caller g.time) log ⊎ (g.time ≡ first)))

eq_of_test : (m n : ℕ) → m == n ≡ true → m ≡ n
eq_of_test m n e = ground arith

timely :
    (expires first second : ℕ)
    → is_timely expires first second ≡ true
    → (first + shortest ≤ expires) × (expires ≤ second + longest)
timely expires first second e = (ground arith, ground arith)

record_of-obj : (v : Value) (fs : Fields) → record_of v ≡ some fs → v ≡ obj fs
unfolding record_of
record_of-obj (obj gs) fs e = cc
record_of-obj _ fs e = cc

text_of-str : (v : Value) (s : String) → text_of v ≡ some s → v ≡ str s
text_of-str (str t) s e = cc
text_of-str _ s e = cc

is_text-str : (v : Value) (s : String) → is_text v s ≡ true → v ≡ str s
is_text-str (str t) s e = ap str (text_eq-true t s e)
is_text-str _ s e = cc

is_scoped-IsScoped : (permissions : Fields) → is_scoped permissions ≡ true → IsScoped permissions
unfolding is_scoped
is_scoped-IsScoped permissions e =
    let (e1, pulls) = and_true _ _ e in
    let (e2, metadata) = and_true _ _ e1 in
    let (exact, contents) = and_true _ _ e2 in
    (
      is_text-str _ _ contents,
      is_text-str _ _ metadata,
      is_text-str _ _ pulls,
      has_exact_keys-All _ permissions _ exact (refl, (refl, (refl, tt))),
    )

bounded_json-IsBody :
    (w : Outside) (r : Response) (fs : Fields)
    → bounded_json w r ≡ some (obj fs)
    → IsBody w r.body fs
unfolding bounded_json
bounded_json-IsBody w r fs e =
    elim (Bool-cases (declares_more max_token_response_bytes r.content_length)) [
      | inl more ↦ let bad : none ≡ some (obj fs) = rw more at e in cc
      | inr less ↦ body_of r.body (rw less at e)
    ]
  where
    parsed_of :
        (reads : List Read) (d : Drained)
        → drain max_token_response_bytes reads ≡ d
        → parsed w d ≡ some (obj fs)
        → IsBody w (some reads) fs
    parsed_of reads (whole bytes) d e =
        let (text, t, p) = and_then-some (w.decode bytes) w.parse (obj fs) e in
        (reads, bytes, text, refl, drain-IsWhole max_token_response_bytes reads bytes d, t, p)
    parsed_of reads too_long d e = cc
    parsed_of reads failed d e = cc

    body_of : (o : Option (List Read)) → body_json w o ≡ some (obj fs) → IsBody w o fs
    body_of none e = cc
    body_of (some reads) e = parsed_of reads _ refl e

token_of-IsGranted :
    (w : Outside) (log : List Event) (r : Response) (v : Value) (first second : ℕ)
    → Memᴰ (settle (some r) first second) log
    → r.status ≡ 201
    → bounded_json w r ≡ some v
    → Ensures (λ m. IsGranted w log m first second) (token_of w v first second)
unfolding token_of
token_of-IsGranted w log r v first second at created body = Ensures-raise _ _ _ (λ fs e1.
    Ensures-raise _ _ _ (λ permissions e2. Ensures-raise _ _ _ (λ date e3.
      Ensures-raise _ _ _ (λ expires e4. Ensures-raise _ _ _ (λ token e5.
        Ensures-require _ _ _ (λ good. Ensures-require _ _ _ (λ selected.
          Ensures-require _ _ _ (λ scoped. Ensures-require _ _ _ (λ in_time.
            let (soon, late) = timely expires first second in_time in
            let named : bounded_json w r ≡ some (obj fs) = body ∙ ap some (record_of-obj v fs e1) in
            holds (
              r,
              fs,
              permissions,
              date,
              at,
              created,
              bounded_json-IsBody w r fs named,
              record_of-obj _ _ e2,
              is_scoped-IsScoped permissions scoped,
              is_text-str _ _ selected,
              text_of-str _ _ e5,
              good,
              text_of-str _ _ e3,
              e4,
              soon,
              late,
            ))))))))))

mint-IsGranted :
    (w : Outside) (log : List Event) (answer : Option Response) (first second : ℕ)
    → Memᴰ (settle answer first second) log
    → Ensures (λ m. IsGranted w log m first second) (mint w answer first second)
unfolding mint
mint-IsGranted w log answer first second at = Ensures-raise _ _ _ (λ r e.
    Ensures-require _ _ _ (λ created. Ensures-raise _ _ _ (λ v body.
      token_of-IsGranted w log r v first second (subst (λ o. Memᴰ (settle o first second) log) e at)
        (eq_of_test _ _ created) body)))

abbrev IsKept : Outside → List Event → Option Minted → Type 0
IsKept w log none = Unit {0}
IsKept w log (some m) = (first second : ℕ) × IsGranted w log m first second

abbrev AreAsked : List Event → Option (List ℕ) → Type 0
AreAsked log none = Unit {0}
AreAsked log (some callers) = All (IsAsked log) callers

abbrev IsSound : Outside → List Event → State → Type 0
IsSound w log s = IsKept w log s.cached × AreAsked log s.minting × All (IsGood w log) s.given

fresh_enough : (expires now : ℕ) → ltb (now + shortest) expires ≡ true → now + shortest ≤ expires
fresh_enough expires now e = ground arith

joined-AreAsked :
    (log : List Event) (o : Option (List ℕ)) (i : ℕ)
    → AreAsked log o
    → IsAsked log i
    → All (IsAsked log) (joined o i)
joined-AreAsked log none i h a = (a, tt)
joined-AreAsked log (some callers) i h a = All-append _ callers (i ∷ []) h (a, tt)

module _ (w : Outside) (log : List Event) where
  asked-IsSound :
      (s : State) (i now : ℕ) (o : Option Minted)
      → Memᴰ (ask i now) log
      → IsSound w log s
      → s.cached ≡ o
      → IsSound w log (asked s i now (fresh o now))
  asked-IsSound s i now none at (k, a, g) e = (k, joined-AreAsked log s.minting i a (now, at), g)
  asked-IsSound s i now (some m) at (k, a, g) e =
      let (first, second, h) = subst (IsKept w log) e k in
      if_split (λ o. IsSound w log (asked s i now o)) (ltb (now + shortest) m.expires_at)
        (λ t. (k, a, ((fresh_enough m.expires_at now t, (now, at), (first, second, h, inl at)), g)))
        (λ _. (k, joined-AreAsked log s.minting i a (now, at), g))

  give-IsGood :
      (first second : ℕ) (m : Minted) (callers : List ℕ)
      → IsGranted w log m first second
      → All (IsAsked log) callers
      → All (IsGood w log) (map (give first m) callers)
  give-IsGood first second m [] h a = tt
  give-IsGood first second m (i ∷ callers) h (a, rest) =
      let (_, _, _, _, _, _, _, _, _, _, _, _, _, _, soon, _) = h in
      ((soon, a, (first, second, h, inr refl)), give-IsGood first second m callers h rest)

  resumed-IsSound :
      (s : State) (callers : List ℕ) (first second : ℕ) (r : Result CredentialError Minted)
      → IsSound w log s
      → All (IsAsked log) callers
      → Ensures (λ m. IsGranted w log m first second) r
      → IsSound w log (resumed s callers first r)
  resumed-IsSound s callers first second (ok m) (k, _, g) a (holds h) =
      ((first, second, h), tt, All-append _ _ s.given (give-IsGood first second m callers h a) g)
  resumed-IsSound s callers first second (err e) (k, _, g) a _ = (k, tt, g)

  settled-IsSound :
      (s : State) (o : Option (List ℕ)) (answer : Option Response) (first second : ℕ)
      → Memᴰ (settle answer first second) log
      → IsSound w log s
      → s.minting ≡ o
      → IsSound w log (settled w s o answer first second)
  settled-IsSound s none answer first second at h e = h
  settled-IsSound s (some callers) answer first second at (k, a, g) e =
      resumed-IsSound s callers first second _ (k, a, g) (subst (AreAsked log) e a)
        (mint-IsGranted w log answer first second at)

  step-IsSound : (s : State) (e : Event) → Memᴰ e log → IsSound w log s → IsSound w log (step w s e)
  unfolding step
  step-IsSound s (ask i now) at h = asked-IsSound s i now s.cached at h refl
  step-IsSound s (settle answer first second) at h =
      settled-IsSound s s.minting answer first second at h refl

  steps-IsSound :
      (s : State) (es : List Event)
      → ((e : Event) → Memᴰ e es → Memᴰ e log)
      → IsSound w log s
      → IsSound w log (steps w s es)
  unfolding steps
  steps-IsSound s [] part h = h
  steps-IsSound s (e ∷ es) part h =
      steps-IsSound (step w s e) es (λ f m. part f (tail m))
        (step-IsSound s e (part e (head refl)) h)

-- Whenever a caller is given a token, the caller has asked, the token has at least five minutes to
-- live, and its text and expiry are those of GitHub's answer to a mint among the events: created,
-- for the selected repositories, with the three permissions of the relay and no other, and with no
-- more than sixty-five minutes to live when it was answered.
pub steps-IsGood : (w : Outside) (es : List Event) → All (IsGood w es) (steps w start es).given
unfolding start
steps-IsGood w es = (steps-IsSound w es start es (λ e m. m) (tt, tt, tt)).2

abbrev pub pending : Option (List ℕ) → ℕ
pending none = 0
pending (some callers) = length callers

abbrev pub total : State → ℕ
total s = length s.given + length s.refused + pending s.minting

abbrev pub asks : List Event → ℕ
asks [] = 0
asks (ask i now ∷ es) = suc (asks es)
asks (settle answer first second ∷ es) = asks es

length-map :
    (now : ℕ) (m : Minted) (callers : List ℕ) → length (map (give now m) callers) ≡ length callers
length-map now m [] = refl
length-map now m (i ∷ callers) = ap suc (length-map now m callers)

pending-joined : (o : Option (List ℕ)) (i : ℕ) → length (joined o i) ≡ suc (pending o)
pending-joined none i = refl
pending-joined (some callers) i = omega (arith, length-append callers (i ∷ []))

total-asked : (s : State) (i now : ℕ) (o : Option Minted) → total (asked s i now o) ≡ suc (total s)
total-asked s i now (some m) = omega arith
total-asked s i now none = omega (arith, pending-joined s.minting i)

total-resumed :
    (s : State) (callers : List ℕ) (now : ℕ) (r : Result CredentialError Minted)
    → s.minting ≡ some callers
    → total (resumed s callers now r) ≡ total s
total-resumed s callers now (ok m) e = omega (
  arith,
  length-append (map (give now m) callers) s.given,
  length-map now m callers,
  ap pending e,
)
total-resumed s callers now (err x) e = omega (arith, length-append callers s.refused, ap pending e)

total-settled :
    (w : Outside) (s : State) (o : Option (List ℕ)) (answer : Option Response) (first second : ℕ)
    → s.minting ≡ o
    → total (settled w s o answer first second) ≡ total s
total-settled w s none answer first second e = refl
total-settled w s (some callers) answer first second e =
    total-resumed s callers first (mint w answer first second) e

steps-total : (w : Outside) (s : State) (es : List Event) → total (steps w s es) ≡ total s + asks es
unfolding steps step
steps-total w s [] = omega arith
steps-total w s (ask i now ∷ es) =
    steps-total w (asked s i now (fresh s.cached now)) es
    ∙ omega (arith, total-asked s i now (fresh s.cached now))
steps-total w s (settle answer first second ∷ es) =
    steps-total w (settled w s s.minting answer first second) es
    ∙ ap (λ n. n + asks es) (total-settled w s s.minting answer first second refl)

-- After any events, as many callers as have asked were given a token, were refused, or await the
-- one mint under way.
pub total-steps : (w : Outside) (es : List Event) → total (steps w start es) ≡ asks es
unfolding start
total-steps w es = steps-total w start es ∙ omega arith
