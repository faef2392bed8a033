-- ===== src/Relay/Queue/Rules.antt =====
-- The rules of a `do` block on GitHub: every request is allowed, what was answered stays answered, and
-- a value comes with what the log shows of it.
use Prim.Native.String.{String}
use qvac_atlas.Base.{
  ℕ, ◌≡◌, refl, inl, inr, Bool, true, false, Option, none, some, List, [], ◌∷◌, ◌==◌, arith,
  if◌then◌else◌,
}
use qvac_atlas.Json.{Value}
use qvac_atlas.Submission.Client.{Response}
use qvac_atlas.Submission.Protocol.{AdmittedSubmission}
use qvac_atlas.Relay.Queue.GitHub.{
  Request, Log, Outside, Step, go, stop, Git, bind_git, bind_step, pure, lift, check, replied,
  request, bounded_json, json,
}
use qvac_atlas.Relay.Queue.Reads.{QueuePath}
use qvac_atlas.Relay.Queue.Facts.{
  Answered, before, IsStatus, Told, IsAt, IsVerified, IsReady, IsOpen, HasRoom, IsAllowed, IsGated,
  IsOn,
}

-- A later log.
pub data Extends (log : Log) : Log → Type 0 where
  same : Extends log log
  more : {e : Request × Option Response} {l : Log} → Extends log l → Extends log (e ∷ l)

pub Extends-trans : {a b c : Log} → Extends a b → Extends b c → Extends a c
Extends-trans x same = x
Extends-trans x (more y) = more (Extends-trans x y)

pub Answered-mono :
    {a b : Log} {q : Request} {r : Response} → Extends a b → Answered a q r → Answered b q r
Answered-mono same h = h
Answered-mono (more x) h = before (Answered-mono x h)

pub IsStatus-mono :
    {a b : Log} {q : Request} {n : ℕ} → Extends a b → IsStatus a q n → IsStatus b q n
IsStatus-mono x (r, h, e) = (r, Answered-mono x h, e)

module _ (w : Outside) {a b : Log} where
  pub Told-mono : {q : Request} {n : ℕ} {v : Value} → Extends a b → Told w a q n v → Told w b q n v
  Told-mono x (r, h, e, f) = (r, Answered-mono x h, e, f)

  pub IsAt-mono :
      (tree : String) (segments : List String) (blob : String)
      → Extends a b
      → IsAt w a tree segments blob
      → IsAt w b tree segments blob
  IsAt-mono tree [] blob x h = h
  IsAt-mono tree (segment ∷ segments) blob x (v, next, t, e, h) =
      (v, next, Told-mono x t, e, IsAt-mono next segments blob x h)

  pub IsVerified-mono :
      (commit : String) (p : QueuePath) (exact : String)
      → Extends a b
      → IsVerified w a commit p exact
      → IsVerified w b commit p exact
  IsVerified-mono commit p exact x
        (v, c, parent, blob, t, e1, e2, (diff, d, e3), at, (stored, u, e4)) =
      (
        v,
        c,
        parent,
        blob,
        Told-mono x t,
        e1,
        e2,
        (diff, Told-mono x d, e3),
        IsAt-mono c.tree_sha p.segments blob x at,
        (stored, Told-mono x u, e4),
      )

  pub IsReady-mono : Extends a b → IsReady w a → IsReady w b
  IsReady-mono x (v, t, e) = (v, Told-mono x t, e)

  pub IsOpen-mono : (s : AdmittedSubmission) → Extends a b → IsOpen w s a → IsOpen w s b
  IsOpen-mono s x ((v, t, e), missing, (p, u, f)) =
      ((v, Told-mono x t, e), IsStatus-mono x missing, (p, Told-mono x u, f))

  pub HasRoom-mono : Extends a b → HasRoom w a → HasRoom w b
  HasRoom-mono x ((v, pulls, t, e, m), (u, entries, seen, k, f, g, n)) =
      ((v, pulls, Told-mono x t, e, m), (u, entries, seen, Told-mono x k, f, g, n))

  pub IsOn-mono :
      (s : AdmittedSubmission) (commit : String)
      → Extends a b
      → IsOn w s a commit
      → IsOn w s b commit
  IsOn-mono s commit x (inl h) = inl (IsStatus-mono x h)
  IsOn-mono s commit x (inr (v, t, e)) = inr (v, Told-mono x t, e)

-- A computation from a log on, with what holds of its value and its log.
pub data Holds (w : Outside) (s : AdmittedSubmission) (log : Log) {A : Type 0}
    (P : A → Log → Type 0) : Step A → Type 0 where
  went : {a : A} {l : Log} → IsGated w s l → Extends log l → P a l → Holds w s log P (go a l)
  ended : {l : Log} → IsGated w s l → Holds w s log P (stop l)

module _ {w : Outside} {s : AdmittedSubmission} {B : Type 0} {Q : B → Log → Type 0} where
  Holds-from : {a b : Log} {m : Step B} → Extends a b → Holds w s b Q m → Holds w s a Q m
  Holds-from x (went g y h) = went g (Extends-trans x y) h
  Holds-from x (ended g) = ended g

  Holds-continue :
      {A : Type 0} {P : A → Log → Type 0} (log : Log) (m : Step A) (f : A → Git B)
      → Holds w s log P m
      → ((a : A) (l : Log) → IsGated w s l → Extends log l → P a l → Holds w s l Q (f a l))
      → Holds w s log Q (bind_step m f)
  Holds-continue log m f (went {a} {l} g x p) k = Holds-from x (k a l g x p)
  Holds-continue log m f (ended g) k = ended g

  pub Holds-bind :
      {A : Type 0} {P : A → Log → Type 0} (log : Log) (m : Git A) (f : A → Git B)
      → Holds w s log P (m log)
      → ((a : A) (l : Log) → IsGated w s l → Extends log l → P a l → Holds w s l Q (f a l))
      → Holds w s log Q (bind_git m f log)
  unfolding bind_git
  Holds-bind log m f h k = Holds-continue log (m log) f h k

  pub Holds-pure : (log : Log) (b : B) → IsGated w s log → Q b log → Holds w s log Q (pure b log)
  unfolding pure
  Holds-pure log b g q = went g same q

  pub Holds-lift :
      {A : Type 0} (log : Log) (o : Option A) (f : A → Git B)
      → IsGated w s log
      → ((a : A) → o ≡ some a → Holds w s log Q (f a log))
      → Holds w s log Q (bind_git (lift o) f log)
  unfolding bind_git lift
  Holds-lift log (some a) f g k = k a refl
  Holds-lift log none f g k = ended g

  pub Holds-check :
      (log : Log) (b : Bool) (f : Unit {0} → Git B)
      → IsGated w s log
      → (b ≡ true → Holds w s log Q (f tt log))
      → Holds w s log Q (bind_git (check b) f log)
  unfolding bind_git check
  Holds-check log true f g k = k refl
  Holds-check log false f g k = ended g

  pub Holds-if :
      (log : Log) (b : Bool) (m n : Git B)
      → (b ≡ true → Holds w s log Q (m log))
      → (b ≡ false → Holds w s log Q (n log))
      → Holds w s log Q ((if b then m else n) log)
  Holds-if log true m n h k = h refl
  Holds-if log false m n h k = k refl

  -- The same at the end of a block.
  pub Holds-end :
      (log : Log) (o : Option B)
      → IsGated w s log
      → ((b : B) → o ≡ some b → Q b log)
      → Holds w s log Q (lift o log)
  unfolding lift
  Holds-end log (some b) g k = went g same (k b refl)
  Holds-end log none g k = ended g

  Holds-replied :
      (log : Log) (q : Request) (o : Option Response) (f : Response → Git B)
      → IsGated w s log
      → IsAllowed w s q log
      → ((r : Response)
          → IsGated w s ((q, some r) ∷ log)
          → Holds w s ((q, some r) ∷ log) Q (f r ((q, some r) ∷ log)))
      → Holds w s log Q (bind_step (replied o ((q, o) ∷ log)) f)
  Holds-replied log q (some r) f g allowed k = Holds-from (more same) (k r (allowed, g))
  Holds-replied log q none f g allowed k = ended (allowed, g)

  -- A request that is allowed.
  pub Holds-request :
      (log : Log) (q : Request) (f : Response → Git B)
      → IsGated w s log
      → IsAllowed w s q log
      → ((r : Response)
          → IsGated w s ((q, some r) ∷ log)
          → Holds w s ((q, some r) ∷ log) Q (f r ((q, some r) ∷ log)))
      → Holds w s log Q (bind_git (request w q) f log)
  unfolding bind_git request
  Holds-request log q f g allowed k = Holds-replied log q (w.answer log q) f g allowed k

pub Holds-weaken :
    {w : Outside} {s : AdmittedSubmission} {A : Type 0} {P Q : A → Log → Type 0} {log : Log}
    {m : Step A}
    → Holds w s log P m
    → ((a : A) (l : Log) → Extends log l → P a l → Q a l)
    → Holds w s log Q m
Holds-weaken (went {a} {l} g x p) k = went g x (k a l x p)
Holds-weaken (ended g) k = ended g

pub check-Holds :
    {w : Outside} {s : AdmittedSubmission} {Q : Unit {0} → Log → Type 0} (log : Log) (b : Bool)
    → IsGated w s log
    → (b ≡ true → Q tt log)
    → Holds w s log Q (check b log)
unfolding check
check-Holds log true g k = went g same (k refl)
check-Holds log false g k = ended g

-- The value of a request, which was answered last.
pub data Fetched (w : Outside) (q : Request) (n : ℕ) (log : Log) (v : Value) : Log → Type 0 where
  fetched :
      (r : Response)
      → r.status ≡ n
      → bounded_json w r ≡ some v
      → Fetched w q n log v ((q, some r) ∷ log)

pub eq_of_test : (m n : ℕ) → m == n ≡ true → m ≡ n
eq_of_test m n e = ground arith

json-Holds :
    (w : Outside) (s : AdmittedSubmission) (log : Log) (q : Request) (n : ℕ)
    → IsGated w s log
    → IsAllowed w s q log
    → Holds w s log (Fetched w q n log) (json w q n log)
unfolding json
json-Holds w s log q n g allowed =
    Holds-request log q _ g allowed
      (λ r h. Holds-check _ _ _ h (λ e. Holds-end _ _ h (λ v f. fetched r (eq_of_test _ _ e) f)))

module _ {w : Outside} {s : AdmittedSubmission} {B : Type 0} {Q : B → Log → Type 0} where
  fetched-Holds :
      (log : Log) (q : Request) (n : ℕ) (v : Value) (l : Log) (m : Git B)
      → Fetched w q n log v l
      → IsGated w s l
      → ((r : Response)
          → r.status ≡ n
          → bounded_json w r ≡ some v
          → IsGated w s ((q, some r) ∷ log)
          → Holds w s ((q, some r) ∷ log) Q (m ((q, some r) ∷ log)))
      → Holds w s l Q (m l)
  fetched-Holds log q n v _ m (fetched r e f) g k = k r e f g

  pub Holds-json :
      (log : Log) (q : Request) (n : ℕ) (f : Value → Git B)
      → IsGated w s log
      → IsAllowed w s q log
      → ((v : Value) (r : Response)
          → r.status ≡ n
          → bounded_json w r ≡ some v
          → IsGated w s ((q, some r) ∷ log)
          → Holds w s ((q, some r) ∷ log) Q (f v ((q, some r) ∷ log)))
      → Holds w s log Q (bind_git (json w q n) f log)
  Holds-json log q n f g allowed k =
      Holds-bind log (json w q n) f (json-Holds w s log q n g allowed)
        (λ v l h _ p. fetched-Holds log q n v l (f v) p h (k v))
