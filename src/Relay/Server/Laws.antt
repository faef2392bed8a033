-- ===== src/Relay/Server/Laws.antt =====
-- What the server lets through to the handler, and how many requests run at a time.
use Prim.Native.String.{String}
use mathlib.Core.Path.{subst}
use qvac_atlas.Base.{
  ℕ, zero, suc, ◌+◌, ◌≤◌, ◌≡◌, refl, sym, ap, ◌∙◌, ◌≢◌, ◌⊎◌, inl, inr, Bool, true, false, not, ◌&&◌,
  Option, none, some, List, [], ◌∷◌, ◌++◌, ◌==◌, ◌=ₜ◌, leb, length, get_elem?, codes, if_split,
  text_eq, text_eq-true, and_true, arith, if◌then◌else◌,
}
use qvac_atlas.Submission.Stream.{Bytes, Read, chunk, Drained, whole, too_long, failed, drain}
use qvac_atlas.Submission.Stream.Laws.{IsWhole, drain-IsWhole}
use qvac_atlas.Submission.Protocol.{Codec, max_report_bytes}
use qvac_atlas.Submission.Client.{Url}
use qvac_atlas.Relay.Handler.{Request, Relay, Handled, handle}
use qvac_atlas.Relay.Server.{
  Incoming, Outside, Reply, healthy, fixed, handled, is_path, is_host, request_of, forward, decoded,
  read, route, serve, Place, turned_away, running, ended, Load, Event, arrive, finish, admit,
  end_at, leave, step, steps,
}

-- A request whose host is the expected one.
abbrev IsExpected : Outside → Option String → Type 0
IsExpected w o = (host : String) × (o ≡ some host) × (w.lower_case host ≡ w.expected_host)

-- A path: it starts with one slash, and not with two.
abbrev IsPath : String → Type 0
IsPath url = (get_elem? (codes url) 0 ≡ some 47) × (get_elem? (codes url) 1 ≢ some 47)

-- The body of the handler's request, and whether its URL was built for one: none if no bytes came,
-- and otherwise their text in one chunk.
abbrev IsCarried : Outside → Bytes → String → Option (List Read) → Bool → Type 0
IsCarried w bytes text body has_body =
    ((length bytes ≡ 0) × (body ≡ none) × (has_body ≡ false))
    ⊎ ((1 ≤ length bytes) × (body ≡ some (chunk (w.encode text) ∷ [])) × (has_body ≡ true))

-- The handler's answer to a request with the method, the headers and the whole body of one that
-- came for the expected host, with the URL that its path and method give.
abbrev pub IsForwarded : Codec → Relay → Outside → Incoming → Handled → Type 0
IsForwarded c relay w r h =
    IsExpected w r.host
    × ((q : Request) × (url text : String) × (bytes : Bytes) × (parsed : Url) × (has_body : Bool)
        × (r.url ≡ some url)
        × IsPath url
        × IsWhole max_report_bytes r.body bytes
        × (relay.decode bytes ≡ some text)
        × (w.build url q.method has_body ≡ some parsed)
        × (q.url ≡ some parsed)
        × (r.method ≡ some q.method)
        × (q.has_content_encoding ≡ r.has_content_encoding)
        × (q.content_type ≡ r.content_type)
        × (q.content_length ≡ r.content_length)
        × IsCarried w bytes text q.body has_body
        × (h ≡ handle c relay q))

-- What is wrong with a request that is answered with 400.
pub data IsMalformed (relay : Relay) (w : Outside) (r : Incoming) : Type 0 where
  other_host : ¬ IsExpected w r.host → IsMalformed relay w r
  no_path : ((url : String) → r.url ≡ some url → ¬ IsPath url) → IsMalformed relay w r
  no_method : r.method ≡ none → IsMalformed relay w r
  unread : drain max_report_bytes r.body ≡ failed → IsMalformed relay w r
  undecoded :
      (bytes : Bytes)
      → IsWhole max_report_bytes r.body bytes
      → relay.decode bytes ≡ none
      → IsMalformed relay w r
  unbuilt :
      (url method : String) (has_body : Bool)
      → r.url ≡ some url
      → r.method ≡ some method
      → w.build url method has_body ≡ none
      → IsMalformed relay w r

-- A health answer to its path, 400 for a malformed request, 413 for a body above the limit, or the
-- handler's answer.
abbrev pub IsServed : Codec → Relay → Outside → Incoming → Reply → Type 0
IsServed c relay w r healthy = (r.method ≡ some "GET") × (r.url ≡ some "/healthz")
IsServed c relay w r (fixed n code) =
    ((n ≡ 400) × IsMalformed relay w r) ⊎ ((n ≡ 413) × (drain max_report_bytes r.body ≡ too_long))
IsServed c relay w r (handled h) = IsForwarded c relay w r h

some_inj : {A : Type 0} {a b : A} → some a ≡ some b → a ≡ b
some_inj e = cc

is_host-IsExpected : (w : Outside) (o : Option String) → is_host w o ≡ true → IsExpected w o
is_host-IsExpected w none e = cc
is_host-IsExpected w (some host) e = (host, refl, text_eq-true _ _ e)

IsExpected-is_host : (w : Outside) (o : Option String) → IsExpected w o → is_host w o ≡ true
IsExpected-is_host w o (host, e, h) = rw (e) (text_eq _ _ h)

is_path-IsPath : (url : String) → is_path (codes url) ≡ true → IsPath url
is_path-IsPath url e = path_of (codes url) e
  where
    path_of :
        (cs : List ℕ) → is_path cs ≡ true → (get_elem? cs 0 ≡ some 47) × (get_elem? cs 1 ≢ some 47)
    path_of [] e = cc
    path_of (c ∷ []) e = (ap some (ground arith), λ h. cc)
    path_of (c ∷ d ∷ cs) e =
        (ap some (ground arith), λ h. let same : d ≡ 47 = some_inj h in ground arith)

IsPath-is_path : (url : String) → IsPath url → is_path (codes url) ≡ true
IsPath-is_path url h = path_of (codes url) h
  where
    path_of :
        (cs : List ℕ) → (get_elem? cs 0 ≡ some 47) × (get_elem? cs 1 ≢ some 47) → is_path cs ≡ true
    path_of [] (e, n) = cc
    path_of (c ∷ []) (e, n) = let same : c ≡ 47 = some_inj e in ground arith
    path_of (c ∷ d ∷ cs) (e, n) =
        let same : c ≡ 47 = some_inj e in let other : d ≢ 47 = λ h. n (ap some h) in ground arith

fails_test : (b : Bool) → b ≡ false → b ≢ true
fails_test b e h = cc

carried :
    (w : Outside) (bytes : Bytes) (text : String) (b : Bool)
    → length bytes == 0 ≡ b
    → IsCarried w bytes text (if b then none else some (chunk (w.encode text) ∷ [])) (not b)
carried w bytes text true e = inl (ground arith, refl, refl)
carried w bytes text false e = inr (ground arith, refl, refl)

-- What `request_of` makes of the bytes.
request_of-IsCarried :
    (w : Outside) (r : Incoming) (parsed : Url) (method : String) (bytes : Bytes) (text : String)
    → IsCarried w bytes text
        (request_of w r parsed method bytes text).body
        (not (length bytes == 0))
request_of-IsCarried w r parsed method bytes text = carried w bytes text _ refl

module _ (c : Codec) (relay : Relay) (w : Outside) (r : Incoming) where
  module _ (url method : String) (host : IsExpected w r.host) (e1 : r.url ≡ some url)
      (path : IsPath url) (e2 : r.method ≡ some method) where
    forward-IsServed :
        (o : Option Url) (bytes : Bytes) (text : String)
        → IsWhole max_report_bytes r.body bytes
        → relay.decode bytes ≡ some text
        → w.build url method (not (length bytes == 0)) ≡ o
        → IsServed c relay w r (forward c relay w r method o bytes text)
    forward-IsServed none bytes text h t b = inl (refl, unbuilt url method _ e1 e2 b)
    forward-IsServed (some parsed) bytes text h t b = (
      host,
      (
        request_of w r parsed method bytes text,
        url,
        text,
        bytes,
        parsed,
        _,
        e1,
        path,
        h,
        t,
        b,
        refl,
        e2,
        refl,
        refl,
        refl,
        request_of-IsCarried w r parsed method bytes text,
        refl,
      ),
    )

    decoded-IsServed :
        (o : Option String) (bytes : Bytes)
        → IsWhole max_report_bytes r.body bytes
        → relay.decode bytes ≡ o
        → IsServed c relay w r (decoded c relay w r url method bytes o)
    decoded-IsServed none bytes h t = inl (refl, undecoded bytes h t)
    decoded-IsServed (some text) bytes h t = forward-IsServed _ bytes text h t refl

    read-IsServed :
        (d : Drained)
        → drain max_report_bytes r.body ≡ d
        → IsServed c relay w r (read c relay w r url method d)
    read-IsServed (whole bytes) d =
        decoded-IsServed _ bytes (drain-IsWhole max_report_bytes r.body bytes d) refl
    read-IsServed too_long d = inr (refl, d)
    read-IsServed failed d = inl (refl, unread d)

  health_url :
      (method url : String)
      → method =ₜ "GET" && url =ₜ "/healthz" ≡ true
      → (method ≡ "GET") × (url ≡ "/healthz")
  health_url method url e =
      let (m, u) = and_true _ _ e in (text_eq-true method "GET" m, text_eq-true url "/healthz" u)

  pathless :
      (url : String)
      → r.url ≡ some url
      → is_path (codes url) ≡ false
      → IsServed c relay w r (fixed 400 "bad-request")
  pathless url e n = inl (
    refl,
    no_path (λ u f h.
        fails_test _ n
          (subst (λ v. is_path (codes v) ≡ true) (some_inj (sym f ∙ e)) (IsPath-is_path u h))),
  )

  not-true : (b : Bool) → not b ≡ true → b ≡ false
  not-true false e = refl
  not-true true e = cc

  not-false : (b : Bool) → not b ≡ false → b ≡ true
  not-false true e = refl
  not-false false e = cc

  route-IsServed :
      (o p : Option String)
      → IsExpected w r.host
      → r.url ≡ o
      → r.method ≡ p
      → IsServed c relay w r (route c relay w r o p)
  route-IsServed (some url) (some method) host e1 e2 =
      if_split (IsServed c relay w r) (not (is_path (codes url)))
        (λ n. pathless url e1 (not-true _ n))
        (λ n.
          if_split (IsServed c relay w r) (method =ₜ "GET" && url =ₜ "/healthz")
            (λ e. let (m, u) = health_url method url e in (e2 ∙ ap some m, e1 ∙ ap some u))
            (λ _. read-IsServed url method host e1 (is_path-IsPath url (not-false _ n)) e2 _ refl))
  route-IsServed none p host e1 e2 = inl (refl, no_path (λ u f. cc))
  route-IsServed (some url) none host e1 e2 = inl (refl, no_method e2)

  -- The server answers the health path; answers with 400 a request with another host, no path, no
  -- method, or a body or URL that cannot be read, with 413 a body that the loop finds too long; or
  -- gives the handler a request that comes from one for the expected host: with its method, its
  -- headers, its URL as it was built, and as its text the whole body, of at most 65,536 bytes.
  pub serve-IsServed : IsServed c relay w r (serve c relay w r)
  unfolding serve
  serve-IsServed =
      if_split (IsServed c relay w r) (not (is_host w r.host))
        (λ n.
          inl (refl, other_host (λ h. fails_test _ (not-true _ n) (IsExpected-is_host w r.host h))))
        (λ n. route-IsServed r.url r.method (is_host-IsExpected w r.host (not-false _ n)) refl refl)

abbrev pub weight : Place → ℕ
weight running = 1
weight turned_away = 0
weight ended = 0

abbrev pub running_in : List Place → ℕ
running_in [] = 0
running_in (p ∷ ps) = weight p + running_in ps

running_in-append :
    (ps : List Place) (p : Place) → running_in (ps ++ (p ∷ [])) ≡ running_in ps + weight p
running_in-append [] p = omega arith
running_in-append (q ∷ ps) p = omega (arith, running_in-append ps p)

running_in-end_at :
    (i : ℕ) (ps : List Place)
    → get_elem? ps i ≡ some running
    → suc (running_in (end_at i ps)) ≡ running_in ps
running_in-end_at i [] e = cc
running_in-end_at zero (running ∷ ps) e = omega arith
running_in-end_at zero (turned_away ∷ ps) e = cc
running_in-end_at zero (ended ∷ ps) e = cc
running_in-end_at (suc i) (p ∷ ps) e = omega (arith, running_in-end_at i ps e)

-- As many requests are counted as run, and no more than the limit.
abbrev pub IsCounted : ℕ → Load → Type 0
IsCounted limit l = (l.active ≡ running_in l.places) × (l.active ≤ limit)

admit-IsCounted : (limit : ℕ) (l : Load) → IsCounted limit l → IsCounted limit (admit limit l)
admit-IsCounted limit l (e, h) =
    if_split (IsCounted limit) (leb limit l.active)
      (λ _. (omega (arith, e, running_in-append l.places turned_away), h))
      (λ t. (omega (arith, e, running_in-append l.places running), ground arith))

leave-IsCounted :
    (limit i : ℕ) (l : Load) (o : Option Place)
    → get_elem? l.places i ≡ o
    → IsCounted limit l
    → IsCounted limit (leave o i l)
leave-IsCounted limit i l (some running) e (q, h) =
    (omega (arith, q, running_in-end_at i l.places e), omega (arith, h))
leave-IsCounted limit i l (some turned_away) e h = h
leave-IsCounted limit i l (some ended) e h = h
leave-IsCounted limit i l none e h = h

step-IsCounted :
    (limit : ℕ) (l : Load) (e : Event) → IsCounted limit l → IsCounted limit (step limit l e)
unfolding step
step-IsCounted limit l arrive h = admit-IsCounted limit l h
step-IsCounted limit l (finish i) h = leave-IsCounted limit i l _ refl h

-- Whatever arrives and finishes, from a load that is counted, the requests that run are counted,
-- and they are never more than the limit.
pub steps-IsCounted :
    (limit : ℕ) (es : List Event) (l : Load)
    → IsCounted limit l
    → IsCounted limit (steps limit l es)
unfolding steps
steps-IsCounted limit [] l h = h
steps-IsCounted limit (e ∷ es) l h =
    steps-IsCounted limit es (step limit l e) (step-IsCounted limit l e h)
